-- ===== src/Messaging/Receipts/Effect.antt =====
-- A claim authorizes one effect.
use workflow_runtime_core.Base.{
  ℕ, String, ◌≡◌, refl, Bool, true, false, not, ◌&&◌, ◌||◌, Option, none, some, List, arith, ltb,
  ◌==◌, is_some,
}
use workflow_runtime_core.Exec.{ok}
use workflow_runtime_core.Db.{Db, Conn, DeliveryReceipt}
use workflow_runtime_core.Messaging.Receipts.Sql.{receipt}
use workflow_runtime_core.Messaging.Receipts.Transition.{
  Key, Transition, is_sending, predicate, assignments, moved,
}
use workflow_runtime_core.Messaging.Receipts.Settle.{start_effect}
use workflow_runtime_core.Messaging.Receipts.Steps.{ReceiptStep, take_steps}
use workflow_runtime_core.Messaging.Receipts.Keeps.{is_proper}
use workflow_runtime_core.Messaging.Receipts.Rows.{OfReceipt-steps}
use workflow_runtime_core.Messaging.Receipts.Fenced.{Denied, worker-Denied}
use workflow_runtime_core.Messaging.Receipts.Granted.{worker-Granted}

-- The claim of the epoch is over, or its effect has started.
abbrev pub is_spent : ℕ → DeliveryReceipt → Bool
is_spent epoch r =
    ltb epoch r.claim_epoch
    || (r.claim_epoch == epoch && (is_some r.effect_started_at || not (is_sending r.status)))

abbrev pub Spent : ℕ → Option DeliveryReceipt → Type 0
Spent epoch none = ⊥
Spent epoch (some r) = is_spent epoch r ≡ true

moved-Spent :
    (e now : ℕ) (t : Transition) (s : DeliveryReceipt)
    → is_proper t ≡ true
    → predicate now t s ≡ true
    → is_spent e s ≡ true
    → is_spent e (moved now t s) ≡ true
unfolding moved assignments predicate
moved-Spent e now (Transition.lease_expired error) s q p h = ground arith
moved-Spent e now (Transition.claim owner seconds) s q p h = ground arith
moved-Spent e now (Transition.renew_lease seconds owner epoch) s q p h = ground arith
moved-Spent e now (Transition.start_effect owner epoch) s q p h = ground arith
moved-Spent e now (Transition.record_provider_ref ref owner epoch) s q p h = ground arith
moved-Spent e now (Transition.settled kind ref error delay owner epoch) s q p h = ground arith
moved-Spent e now (Transition.block error) s q p h = ground arith
moved-Spent e now (Transition.review_uncertain error version) s q p h = ground arith
moved-Spent e now (Transition.reconcile_known_ref status error version ref) s q p h = ground arith
moved-Spent e now (Transition.resolved disposition status error expected version) s q p h =
    ground arith

spent-refuses :
    (now : ℕ) (owner : String) (e : ℕ) (r : DeliveryReceipt)
    → is_spent e r ≡ true
    → predicate now (Transition.start_effect owner e) r ≡ false
unfolding predicate
spent-refuses now owner e r h = ground arith

started-Spent :
    (now : ℕ) (owner : String) (e : ℕ) (r : DeliveryReceipt)
    → predicate now (Transition.start_effect owner e) r ≡ true
    → is_spent e (moved now (Transition.start_effect owner e) r) ≡ true
unfolding predicate moved assignments
started-Spent now owner e r h = ground arith

-- A claim authorizes one effect: in the database that a `start_effect` leaves which was granted,
-- and after any further sessions over the functions of receipts.py, no `start_effect` with the
-- same claim epoch is granted, under any owner and from any session, and it changes neither a
-- receipt nor the event log.
pub effect_once :
    (conn later : Conn) (key : Key) (owner other : String) (epoch : ℕ) (db db' : Db)
    (steps : List (Conn × ReceiptStep))
    → start_effect conn key owner epoch db ≡ (ok true, db')
    → Denied (take_steps steps db') (start_effect later key other epoch (take_steps steps db'))
unfolding start_effect
effect_once conn later key owner other epoch db db' steps done =
    let (row, (p, found, holds, same, after)) =
      worker-Granted conn key owner (Transition.start_effect owner epoch) _ none db db' done in
    let spent : Spent epoch (receipt key db') =
      rw after (started-Spent conn.now owner epoch p holds) in
    let still =
      OfReceipt-steps key (Spent epoch) (λ now t s. moved-Spent epoch now t s) (λ now h. absurd h)
        steps db' spent in
    worker-Denied later key (Transition.start_effect other epoch) (take_steps steps db')
      (λ r there. spent-refuses later.now other epoch r (rw there at still)) other _ none
      (take_steps steps db') (refl, refl)
