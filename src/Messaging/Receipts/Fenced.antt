-- ===== src/Messaging/Receipts/Fenced.antt =====
-- The fences: a worker whose claim was superseded can do nothing, and a claim starts one effect.
use workflow_runtime_core.Base.{
  ℕ, ◌<◌, String, ◌≡◌, ◌≢◌, refl, Bool, true, false, Option, none, some, List, arith, is_some,
}
use workflow_runtime_core.Exec.{Result, ok, Exec, ◌>>=◌, bind-post, raise_if, value_error, pure}
use workflow_runtime_core.Json.{Fields}
use workflow_runtime_core.Db.{Db, Conn, DeliveryReceipt}
use workflow_runtime_core.Messaging.Receipts.Settle
use workflow_runtime_core.Messaging.Receipts.Sql.{Audit, change_row, execute_operation, receipt}
use workflow_runtime_core.Messaging.Receipts.Transition.{
  Key, Settlement, Transition, predicate, assignments, moved,
}
use workflow_runtime_core.Messaging.Receipts.Ops.{ReceiptActor, service, change, changes}
use workflow_runtime_core.Messaging.Receipts.Settle.{worker}
use workflow_runtime_core.Messaging.Receipts.Steps.{
  WorkerStep, renew, start, record_ref, deliver, fail, lose, escalate, give_up, defer, work,
  ReceiptStep, take_steps,
}
use workflow_runtime_core.Messaging.Receipts.Quiet.{audited-keeps, schema-keeps, actor-keeps}
use workflow_runtime_core.Messaging.Receipts.Rows.{OfReceipt-steps}

-- The receipt is there, and its claim is later than `epoch`.
abbrev pub Superseded : ℕ → Option DeliveryReceipt → Type 0
Superseded epoch none = ⊥
Superseded epoch (some r) = epoch < r.claim_epoch

moved-Superseded :
    (epoch now : ℕ) (t : Transition) (s : DeliveryReceipt)
    → Superseded epoch (some s)
    → Superseded epoch (some (moved now t s))
unfolding moved assignments
moved-Superseded e now (Transition.lease_expired error) s h = h
moved-Superseded e now (Transition.claim owner seconds) s h = omega arith
moved-Superseded e now (Transition.renew_lease seconds owner epoch) s h = h
moved-Superseded e now (Transition.start_effect owner epoch) s h = h
moved-Superseded e now (Transition.record_provider_ref ref owner epoch) s h = h
moved-Superseded e now (Transition.settled kind ref error delay owner epoch) s h = h
moved-Superseded e now (Transition.block error) s h = h
moved-Superseded e now (Transition.review_uncertain error version) s h = h
moved-Superseded e now (Transition.reconcile_known_ref status error version ref) s h = h
moved-Superseded e now (Transition.resolved disposition status error expected version) s h = h

-- The worker may do nothing, and has done nothing.
abbrev pub Unchanged : Db → Db → Type 0
Unchanged db s = (s.receipts ≡ db.receipts) × (s.receipt_events ≡ db.receipt_events)

abbrev pub Denied : Db → Result Bool × Db → Type 0
Denied db o = (o.0 ≢ ok true) × Unchanged db o.1

abbrev Missed : Db → Result (Option DeliveryReceipt) × Db → Type 0
Missed db o = ((a : Option DeliveryReceipt) → o.0 ≡ ok a → a ≡ none) × Unchanged db o.1

none-Denied :
    (db : Db) (a : Option DeliveryReceipt) (s : Db)
    → a ≡ none
    → Unchanged db s
    → Denied db (pure (is_some a) s)
none-Denied db none s e h = (λ f. cc f, h)
none-Denied db (some r) s e h = cc e

-- A transition that no row under the key allows.
module _ (conn : Conn) (key : Key) (t : Transition) (db : Db)
    (refused : (r : DeliveryReceipt)
      → receipt key db ≡ some r
      → predicate conn.now t r ≡ false) where
  operation-Missed :
      (audit : Audit) (s : Db) → Unchanged db s → Missed db (execute_operation conn key t audit s)
  unfolding execute_operation change_row receipt
  operation-Missed audit s h = go (receipt key s) refl
    where
      go :
          (o : Option DeliveryReceipt)
          → receipt key s ≡ o
          → Missed db (change_row conn key t audit o s)
      go none e = (λ a f. cc f, h)
      go (some r) e =
          let off : predicate conn.now t r ≡ false = refused r (rw (← h.0) e) in
          rw off (λ a f. cc f, h)

  change-Missed :
      (actor : ReceiptActor) (reason : String) (evidence : Option Fields) (s : Db)
      → Unchanged db s
      → Missed db (change conn key t actor reason evidence s)
  unfolding change
  change-Missed actor reason evidence s h =
      let after = audited-keeps (Unchanged db) actor reason evidence s h in
      bind-post (Unchanged db) (Missed db) _ _ s after (λ e s' k. (λ a f. cc f, k))
        λ audit done.
          let checked = schema-keeps (Unchanged db) conn 5 _ _ after in
          bind-post (Unchanged db) (Missed db) _ _ _ checked (λ e s' k. (λ a f. cc f, k))
            λ live passed. operation-Missed audit _ checked

  changes-Denied :
      (actor : ReceiptActor) (reason : String) (evidence : Option Fields) (s : Db)
      → Unchanged db s
      → Denied db (changes conn key t actor reason evidence s)
  changes-Denied actor reason evidence s h =
      let tried = change-Missed actor reason evidence s h in
      bind-post (Unchanged db) (Denied db) (change conn key t actor reason evidence)
        (λ row. pure (is_some row)) s tried.1 (λ e s' k. (λ f. cc f, k))
        λ a hit.
          none-Denied db a (change conn key t actor reason evidence s).1 (tried.0 a hit) tried.1

  pub worker-Denied :
      (owner reason : String) (evidence : Option Fields) (s : Db)
      → Unchanged db s
      → Denied db (worker conn key owner t reason evidence s)
  unfolding worker
  worker-Denied owner reason evidence s h =
      let named = actor-keeps (Unchanged db) service owner s h in
      bind-post (Unchanged db) (Denied db) _ _ s named (λ e s' k. (λ f. cc f, k))
        λ actor done. changes-Denied actor reason evidence _ named

guard-Denied :
    (db : Db) (b : Bool) (f : Unit → Exec Db Bool) (s : Db)
    → Unchanged db s
    → Denied db (f tt s)
    → Denied db ((raise_if b value_error >>= f) s)
unfolding ◌>>=◌
guard-Denied db true f s h k = (λ e. cc e, h)
guard-Denied db false f s h k = k

-- Where the claim is later, no fence of the epoch holds.
module _ (conn : Conn) (key : Key) (owner : String) (epoch : ℕ) (db : Db)
    (later : Superseded epoch (receipt key db)) where
  later_row : (r : DeliveryReceipt) → receipt key db ≡ some r → epoch < r.claim_epoch
  later_row r found = rw found at later

  superseded-settle :
      (kind : Settlement) (reason : String) (ref : Option String) (evidence : Option Fields)
      (delay : ℕ) (s : Db)
      → Unchanged db s
      → Denied db (Settle.settle conn key owner epoch kind reason ref evidence delay s)
  unfolding Settle.settle predicate
  superseded-settle kind reason ref evidence delay s h =
      worker-Denied conn key _ db (λ r found. ground (arith, later_row r found)) owner reason
        evidence s h

  pub work-Denied : (w : WorkerStep) → Denied db (work conn key owner epoch w db)
  unfolding work Settle.renew_lease Settle.start_effect Settle.record_provider_ref
      Settle.mark_delivered Settle.mark_failed Settle.mark_uncertain Settle.mark_needs_review
      Settle.block_unstarted Settle.defer_unstarted predicate
  work-Denied (renew seconds) =
      guard-Denied db _ _ db (refl, refl)
        (worker-Denied conn key _ db (λ r found. ground (arith, later_row r found)) owner _ none db
          (refl, refl))
  work-Denied start =
      worker-Denied conn key _ db (λ r found. ground (arith, later_row r found)) owner _ none db
        (refl, refl)
  work-Denied (record_ref ref) =
      guard-Denied db _ _ db (refl, refl)
        (worker-Denied conn key _ db (λ r found. ground (arith, later_row r found)) owner _ none db
          (refl, refl))
  work-Denied (deliver ref) = superseded-settle _ _ ref none 0 db (refl, refl)
  work-Denied (fail error attempts evidence) =
      guard-Denied db _ _ db (refl, refl)
        (superseded-settle _ error none (some evidence) _ _ (refl, refl))
  work-Denied (lose reason ref) = superseded-settle _ reason ref none 0 db (refl, refl)
  work-Denied (escalate reason evidence) =
      superseded-settle _ reason none (some evidence) 0 db (refl, refl)
  work-Denied (give_up reason) = superseded-settle _ reason none none 0 db (refl, refl)
  work-Denied (defer reason delay) =
      guard-Denied db _ _ db (refl, refl)
        (superseded-settle _ reason none none delay db (refl, refl))

-- A worker whose claim was superseded is locked out for good: where the receipt's claim epoch is
-- later than the worker's, then after any sessions over the functions of receipts.py, whatever the
-- worker calls with its old epoch (renewing, starting the effect, recording the reference or any
-- settlement) is not granted and changes neither a receipt nor the event log.
pub Superseded-forever :
    (key : Key) (owner : String) (epoch : ℕ) (conn : Conn) (w : WorkerStep)
    (steps : List (Conn × ReceiptStep)) (db : Db)
    → Superseded epoch (receipt key db)
    → Denied (take_steps steps db) (work conn key owner epoch w (take_steps steps db))
Superseded-forever key owner epoch conn w steps db later =
    work-Denied conn key owner epoch (take_steps steps db)
      (OfReceipt-steps key (Superseded epoch)
        (λ now t s proper holds. moved-Superseded epoch now t s) (λ now h. absurd h) steps db later)
      w
