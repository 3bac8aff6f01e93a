-- ===== src/Messaging/Receipts/Retired.antt =====
-- A receipt that has left automation: delivered, lost, blocked or in review.
use workflow_runtime_core.Base.{ℕ, ◌≡◌, refl, Bool, true, false, Option, none, some, List, arith}
use workflow_runtime_core.Db.{Db, Conn, DeliveryReceipt, ReceiptStatus}
use workflow_runtime_core.Messaging.Receipts.Sql.{receipt}
use workflow_runtime_core.Messaging.Receipts.Transition.{
  Key, Transition, predicate, assignments, moved,
}
use workflow_runtime_core.Messaging.Receipts.Steps.{ReceiptStep, take_steps}
use workflow_runtime_core.Messaging.Receipts.Keeps.{is_proper}
use workflow_runtime_core.Messaging.Receipts.Rows.{OfReceipt-steps}

-- The statuses that `claim`, `claim_due` and the worker's functions never leave.
abbrev pub is_retired : ReceiptStatus → Bool
is_retired ReceiptStatus.pending = false
is_retired ReceiptStatus.sending = false
is_retired ReceiptStatus.failed = false
is_retired ReceiptStatus.delivered = true
is_retired ReceiptStatus.uncertain = true
is_retired ReceiptStatus.blocked = true
is_retired ReceiptStatus.needs_review = true

-- The receipt is there and retired, with the attempts, the claim and the effect that `r` has.
abbrev pub Retired : DeliveryReceipt → Option DeliveryReceipt → Type 0
Retired r none = ⊥
Retired r (some s) =
    (is_retired s.status ≡ true)
    × (s.attempts ≡ r.attempts)
    × (s.claim_epoch ≡ r.claim_epoch)
    × (s.provider_ref ≡ r.provider_ref)
    × (s.effect_started_at ≡ r.effect_started_at)

moved-Retired :
    (r : DeliveryReceipt) (now : ℕ) (t : Transition) (s : DeliveryReceipt)
    → is_proper t ≡ true
    → predicate now t s ≡ true
    → Retired r (some s)
    → Retired r (some (moved now t s))
unfolding predicate moved assignments
moved-Retired r now (Transition.lease_expired error) s p h k = ground arith
moved-Retired r now (Transition.claim owner seconds) s p h k = ground arith
moved-Retired r now (Transition.renew_lease seconds owner epoch) s p h k = ground arith
moved-Retired r now (Transition.start_effect owner epoch) s p h k = ground arith
moved-Retired r now (Transition.record_provider_ref ref owner epoch) s p h k = ground arith
moved-Retired r now (Transition.settled kind ref error delay owner epoch) s p h k = ground arith
moved-Retired r now (Transition.block error) s p h k = ground arith
moved-Retired r now (Transition.review_uncertain error version) s p h k = ground arith
moved-Retired r now (Transition.reconcile_known_ref status error version ref) s p h k = ground arith
moved-Retired r now (Transition.resolved disposition status error expected version) s p h k =
    ground arith

-- A receipt that is delivered, uncertain, blocked or in review never returns to automation:
-- through any sessions over the functions of receipts.py, in any order, it stays one of these,
-- with the attempts, the claim epoch, the provider's reference and the start of the effect that it
-- has. In particular nobody claims it again.
pub Retired-forever :
    (key : Key) (r : DeliveryReceipt) (steps : List (Conn × ReceiptStep)) (db : Db)
    → receipt key db ≡ some r
    → is_retired r.status ≡ true
    → Retired r (receipt key (take_steps steps db))
Retired-forever key r steps db found retired =
    OfReceipt-steps key (Retired r) (moved-Retired r) (λ now h. absurd h) steps db
      (rw found (retired, refl, refl, refl, refl))
