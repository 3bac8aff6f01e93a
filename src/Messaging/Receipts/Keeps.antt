-- ===== src/Messaging/Receipts/Keeps.antt =====
-- What the statements of _receipt_sql.py keep, every function of receipts.py keeps.
use workflow_runtime_core.Base.{
  ℕ, String, ◌≡◌, refl, Bool, true, false, not, ◌&&◌, ◌||◌, Option, none, List, [], ◌∷◌, arith, ℤ,
  pos, negsuc,
}
use workflow_runtime_core.Exec.{bind-keeps}
use workflow_runtime_core.Json.{Fields}
use workflow_runtime_core.Db.{Db, Conn, DeliveryReceipt, ReceiptStatus, raise_if-keeps}
use workflow_runtime_core.Messaging.Receipts.Review
use workflow_runtime_core.Messaging.Receipts.Settle
use workflow_runtime_core.Messaging.Receipts.Sql.{Audit, execute_operation, receipt, open_row}
use workflow_runtime_core.Messaging.Receipts.Transition.{Key, Disposition, Transition, status_eq}
use workflow_runtime_core.Messaging.Receipts.Ops
use workflow_runtime_core.Messaging.Receipts.Ops.{
  ReceiptActor, ActorKind, service, human, make_actor, audited, change, changes, require_receipts,
}
use workflow_runtime_core.Messaging.Receipts.Review.{is_ambiguous, resolved_status}
use workflow_runtime_core.Messaging.Receipts.Settle.{worker}
use workflow_runtime_core.Messaging.Receipts.Steps.{
  WorkerStep, renew, start, record_ref, deliver, fail, lose, escalate, give_up, defer, work,
  ReceiptStep, open_step, claim_step, claim_due_step, work_step, block_step, reconcile_step,
  resolve_step, review_step, known_ref_step, take_step, take_steps,
}
use workflow_runtime_core.Messaging.Receipts.Quiet.{
  schema-keeps, actor-keeps, audited-keeps, selection-keeps, commit-keeps,
}

-- The transitions as the functions give them: a reconciliation delivers or asks for a review, and
-- a resolution closes an ambiguous receipt.
abbrev pub is_proper : Transition → Bool
is_proper (Transition.lease_expired error) = true
is_proper (Transition.claim owner seconds) = true
is_proper (Transition.renew_lease seconds owner epoch) = true
is_proper (Transition.start_effect owner epoch) = true
is_proper (Transition.record_provider_ref ref owner epoch) = true
is_proper (Transition.settled kind ref error delay owner epoch) = true
is_proper (Transition.block error) = true
is_proper (Transition.review_uncertain error version) = true
is_proper (Transition.reconcile_known_ref status error version ref) =
    status_eq status ReceiptStatus.delivered || status_eq status ReceiptStatus.needs_review
is_proper (Transition.resolved disposition status error expected version) =
    is_ambiguous expected
    && (status_eq status ReceiptStatus.delivered || status_eq status ReceiptStatus.blocked)

module _ (P : Db → Type 0)
    (operated : (conn : Conn) (key : Key) (t : Transition) (audit : Audit) (db : Db)
      → is_proper t ≡ true
      → P db
      → P (execute_operation conn key t audit db).1)
    (opened : (conn : Conn) (key : Key) (audit : Audit) (db : Db)
      → P db
      → P (open_row conn key audit (receipt key db) db).1)
    (drew : (n : ℕ) (db : Db) → P db → P (record db { drawn = n })) where
  change-keeps :
      (conn : Conn) (key : Key) (t : Transition) (actor : ReceiptActor) (reason : String)
      (evidence : Option Fields) (db : Db)
      → is_proper t ≡ true
      → P db
      → P (change conn key t actor reason evidence db).1
  unfolding change
  change-keeps conn key t actor reason evidence db proper h =
      let after = audited-keeps P actor reason evidence db h in
      bind-keeps P _ _ db after λ audit done.
        bind-keeps P _ _ _ (schema-keeps P conn 5 _ _ after)
          λ live passed. operated conn key t audit _ proper (schema-keeps P conn 5 _ _ after)

  changes-keeps :
      (conn : Conn) (key : Key) (t : Transition) (actor : ReceiptActor) (reason : String)
      (evidence : Option Fields) (db : Db)
      → is_proper t ≡ true
      → P db
      → P (changes conn key t actor reason evidence db).1
  changes-keeps conn key t actor reason evidence db proper h =
      let after = change-keeps conn key t actor reason evidence db proper h in
      bind-keeps P _ _ db after λ row done. after

  worker-keeps :
      (conn : Conn) (key : Key) (owner : String) (t : Transition) (reason : String)
      (evidence : Option Fields) (db : Db)
      → is_proper t ≡ true
      → P db
      → P (worker conn key owner t reason evidence db).1
  unfolding worker
  worker-keeps conn key owner t reason evidence db proper h =
      let after = actor-keeps P service owner db h in
      bind-keeps P _ _ db after
        λ actor done. changes-keeps conn key t actor reason evidence _ proper after

  pub work-keeps :
      (conn : Conn) (key : Key) (owner : String) (epoch : ℕ) (w : WorkerStep) (db : Db)
      → P db
      → P (work conn key owner epoch w db).1
  unfolding work Settle.renew_lease Settle.start_effect Settle.record_provider_ref
      Settle.mark_delivered Settle.mark_failed Settle.mark_uncertain Settle.mark_needs_review
      Settle.block_unstarted Settle.defer_unstarted Settle.settle
  work-keeps conn key owner epoch (renew seconds) db h =
      raise_if-keeps P _ _ _ db h λ e. worker-keeps conn key owner _ _ _ db refl h
  work-keeps conn key owner epoch start db h = worker-keeps conn key owner _ _ _ db refl h
  work-keeps conn key owner epoch (record_ref ref) db h =
      raise_if-keeps P _ _ _ db h λ e. worker-keeps conn key owner _ _ _ db refl h
  work-keeps conn key owner epoch (deliver ref) db h = worker-keeps conn key owner _ _ _ db refl h
  work-keeps conn key owner epoch (fail error attempts evidence) db h =
      raise_if-keeps P _ _ _ db h λ e. worker-keeps conn key owner _ _ _ _ refl (drew _ db h)
  work-keeps conn key owner epoch (lose reason ref) db h =
      worker-keeps conn key owner _ _ _ db refl h
  work-keeps conn key owner epoch (escalate reason evidence) db h =
      worker-keeps conn key owner _ _ _ db refl h
  work-keeps conn key owner epoch (give_up reason) db h =
      worker-keeps conn key owner _ _ _ db refl h
  work-keeps conn key owner epoch (defer reason delay) db h =
      raise_if-keeps P _ _ _ db h λ e. worker-keeps conn key owner _ _ _ db refl h

  expire-keeps : (conn : Conn) (key : Key) (db : Db) → P db → P (Ops.expire conn key db).1
  unfolding Ops.expire
  expire-keeps conn key db h =
      let after = actor-keeps P service "receipt-reconciler" db h in
      bind-keeps P _ _ db after λ actor done. changes-keeps conn key _ actor _ none _ refl after

  claim-keeps :
      (conn : Conn) (key : Key) (owner : String) (seconds : ℤ) (db : Db)
      → P db
      → P (Ops.claim conn key owner seconds db).1
  unfolding Ops.claim
  claim-keeps conn key owner (negsuc n) db h = h
  claim-keeps conn key owner (pos n) db h =
      let lapsed = expire-keeps conn key db h in
      bind-keeps P _ _ db lapsed λ hit done.
        let named = actor-keeps P service owner _ lapsed in
        bind-keeps P _ _ _ named λ actor made. change-keeps conn key _ actor _ none _ refl named

  claim_each-keeps :
      (conn : Conn) (namespace destination owner : String) (seconds : ℤ) (ids : List String)
      (db : Db)
      → P db
      → P (Ops.claim_each conn namespace destination owner seconds ids db).1
  unfolding Ops.claim_each
  claim_each-keeps conn namespace destination owner seconds [] db h = h
  claim_each-keeps conn namespace destination owner seconds (id ∷ ids) db h =
      let first = claim-keeps conn _ owner seconds db h in
      bind-keeps P _ _ db first λ row done.
        let rest = claim_each-keeps conn namespace destination owner seconds ids _ first in
        bind-keeps P _ _ _ rest λ rows more. rest

  claim_due-keeps :
      (conn : Conn) (text_le : String → String → Bool) (locked : DeliveryReceipt → Bool)
      (namespace destination owner : String) (seconds : ℤ) (limit : ℕ)
      (message_ids : Option (List String)) (db : Db)
      → P db
      → P
          (Ops.claim_due conn text_le locked namespace destination owner seconds limit message_ids
            db).1
  unfolding Ops.claim_due Ops.check_limit
  claim_due-keeps conn text_le locked namespace destination owner seconds limit message_ids db h =
      raise_if-keeps P _ _ _ db h λ e.
        let chosen = selection-keeps P message_ids db h in
        bind-keeps P _ _ db chosen λ selection done.
          let checked = schema-keeps P conn 5 _ _ chosen in
          bind-keeps P _ _ _ checked λ live passed.
            bind-keeps P _ _ _ checked
              λ ids read. claim_each-keeps conn namespace destination owner seconds ids _ checked

  expire_each-keeps :
      (conn : Conn) (keys : List Key) (db : Db) → P db → P (Review.expire_each conn keys db).1
  unfolding Review.expire_each
  expire_each-keeps conn [] db h = h
  expire_each-keeps conn (key ∷ keys) db h =
      let first = expire-keeps conn key db h in
      bind-keeps P _ _ db first λ hit done.
        let rest = expire_each-keeps conn keys _ first in bind-keeps P _ _ _ rest λ ids more. rest

  reconcile-keeps :
      (conn : Conn) (text_le : String → String → Bool) (locked : DeliveryReceipt → Bool)
      (namespace : String) (limit : ℕ) (db : Db)
      → P db
      → P (Review.reconcile_stale conn text_le locked namespace limit db).1
  unfolding Review.reconcile_stale Ops.check_limit
  reconcile-keeps conn text_le locked namespace limit db h = raise_if-keeps P _ _ _ db h λ e.
      let checked = schema-keeps P conn 5 _ _ h in
      bind-keeps P _ _ _ checked
        λ live passed. bind-keeps P _ _ _ checked λ keys read. expire_each-keeps conn keys _ checked

  open-keeps :
      (conn : Conn) (key : Key) (actor : ReceiptActor) (db : Db)
      → P db
      → P (Ops.open_receipt conn key actor db).1
  unfolding Ops.open_receipt
  open-keeps conn key actor db h =
      let after = audited-keeps P actor _ none db h in
      bind-keeps P _ _ db after λ audit done.
        let checked = schema-keeps P conn 5 _ _ after in
        bind-keeps P _ _ _ checked λ live passed. opened conn key audit _ checked

  resolve-keeps :
      (conn : Conn) (key : Key) (disposition : Disposition) (actor : ReceiptActor) (note : String)
      (expected : ReceiptStatus) (version : ℕ) (evidence : Option Fields) (db : Db)
      → P db
      → P (Review.resolve conn key disposition actor note expected version evidence db).1
  unfolding Review.resolve
  resolve-keeps conn key disposition actor note expected version evidence db h =
      raise_if-keeps P _ _ _ db h
        λ e. changes-keeps conn key _ actor _ evidence db (closes disposition expected e) h
    where
      closes :
          (disposition : Disposition) (expected : ReceiptStatus)
          → not (is_ambiguous expected) ≡ false
          → (is_ambiguous expected
              && (status_eq (resolved_status disposition) ReceiptStatus.delivered
                  || status_eq (resolved_status disposition) ReceiptStatus.blocked))
            ≡ true
      closes Disposition.delivered expected e = ground (arith, e)
      closes Disposition.blocked expected e = ground (arith, e)
      closes Disposition.retry_new_generation expected e = ground (arith, e)

  known_ref-keeps :
      (conn : Conn) (key : Key) (ref : String) (version : ℕ) (actor : ReceiptActor)
      (expected observed evidence_ref : String) (db : Db)
      → P db
      → P
          (Review.reconcile_known_ref conn key ref version actor expected observed evidence_ref
            db).1
  unfolding Review.reconcile_known_ref
  known_ref-keeps conn key ref version actor expected observed evidence_ref db h =
      raise_if-keeps P _ _ _ db h λ e. changes-keeps conn key _ actor _ _ db (ground arith) h

  pub take_step-keeps :
      (conn : Conn) (step : ReceiptStep) (db : Db) → P db → P (take_step conn step db)
  unfolding take_step Settle.block Review.review_uncertain
  take_step-keeps conn (open_step key actor) db h =
      commit-keeps P _ db h (open-keeps conn key actor db h)
  take_step-keeps conn (claim_step key owner seconds) db h =
      commit-keeps P _ db h (claim-keeps conn key owner seconds db h)
  take_step-keeps conn (claim_due_step le locked ns destination owner seconds limit ids) db h =
      commit-keeps P _ db h
        (claim_due-keeps conn le locked ns destination owner seconds limit ids db h)
  take_step-keeps conn (work_step key owner epoch w) db h =
      commit-keeps P _ db h (work-keeps conn key owner epoch w db h)
  take_step-keeps conn (block_step key reason actor) db h =
      commit-keeps P _ db h (changes-keeps conn key _ actor reason none db refl h)
  take_step-keeps conn (reconcile_step le locked namespace limit) db h =
      commit-keeps P _ db h (reconcile-keeps conn le locked namespace limit db h)
  take_step-keeps conn (resolve_step key disposition actor note expected version evidence) db h =
      commit-keeps P _ db h
        (resolve-keeps conn key disposition actor note expected version evidence db h)
  take_step-keeps conn (review_step key version actor reason evidence) db h =
      commit-keeps P _ db h
        (raise_if-keeps P _ _ _ db h λ e. changes-keeps conn key _ actor reason _ db refl h)
  take_step-keeps conn (known_ref_step key ref version actor expected observed ev) db h =
      commit-keeps P _ db h (known_ref-keeps conn key ref version actor expected observed ev db h)

  pub take_steps-keeps :
      (steps : List (Conn × ReceiptStep)) (db : Db) → P db → P (take_steps steps db)
  unfolding take_steps
  take_steps-keeps [] db h = h
  take_steps-keeps ((conn, step) ∷ steps) db h =
      take_steps-keeps steps (take_step conn step db) (take_step-keeps conn step db h)
