-- ===== src/Messaging/Receipts/Lifecycle.antt =====
-- The state machine of a receipt's status, which receipts.py implements.
use workflow_runtime_core.Base.{
  ℕ, ◌≡◌, sym, true, ◌||◌, Option, none, some, List, arith, inl, inr, Bool-cases,
}
use mathlib.Core.Path.{subst}
use workflow_runtime_core.Db.{Db, Conn, DeliveryReceipt, ReceiptStatus}
use workflow_runtime_core.Db.ReceiptStatus.{
  pending, sending, delivered, failed, uncertain, blocked, needs_review,
}
use workflow_runtime_core.Messaging.Receipts.Sql.{receipt}
use workflow_runtime_core.Messaging.Receipts.Transition.{
  Key, Settlement, Transition, predicate, assignments, moved, status_eq, is_sending, is_open,
  is_uncertain, settled_status,
}
use workflow_runtime_core.Messaging.Receipts.Review.{is_ambiguous}
use workflow_runtime_core.Messaging.Receipts.Steps.{ReceiptStep, take_steps}
use workflow_runtime_core.Messaging.Receipts.Keeps.{is_proper}
use workflow_runtime_core.Messaging.Receipts.Rows.{OfReceipt-steps}

-- The moves of the machine. A claim takes a receipt that waits; its worker settles it in six ways;
-- a lease that lapses loses the outcome; and only a review or a resolution leaves `uncertain`.
pub data Move : ReceiptStatus → ReceiptStatus → Type 0 where
  claim_pending : Move pending sending
  claim_failed : Move failed sending
  deliver : Move sending delivered
  reject : Move sending failed
  lose : Move sending uncertain
  escalate : Move sending needs_review
  give_up : Move sending blocked
  defer : Move sending pending
  block_pending : Move pending blocked
  block_failed : Move failed blocked
  review : Move uncertain needs_review
  prove : Move uncertain delivered
  close : Move uncertain blocked
  approve : Move needs_review delivered
  dismiss : Move needs_review blocked

-- Any number of moves.
pub data Moves : ReceiptStatus → ReceiptStatus → Type 0 where
  stay : {s : ReceiptStatus} → Moves s s
  then_move : {s t u : ReceiptStatus} → Moves s t → Move t u → Moves s u

same_status : (a b : ReceiptStatus) → status_eq a b ≡ true → a ≡ b
same_status a b h = ground arith

from_sending : (s u : ReceiptStatus) → is_sending s ≡ true → Move sending u → Move s u
from_sending pending u h m = cc h
from_sending sending u h m = m
from_sending delivered u h m = cc h
from_sending failed u h m = cc h
from_sending uncertain u h m = cc h
from_sending blocked u h m = cc h
from_sending needs_review u h m = cc h

from_open : (s u : ReceiptStatus) → is_open s ≡ true → Move pending u → Move failed u → Move s u
from_open pending u h m n = m
from_open sending u h m n = cc h
from_open delivered u h m n = cc h
from_open failed u h m n = n
from_open uncertain u h m n = cc h
from_open blocked u h m n = cc h
from_open needs_review u h m n = cc h

from_uncertain : (s u : ReceiptStatus) → is_uncertain s ≡ true → Move uncertain u → Move s u
from_uncertain pending u h m = cc h
from_uncertain sending u h m = cc h
from_uncertain delivered u h m = cc h
from_uncertain failed u h m = cc h
from_uncertain uncertain u h m = m
from_uncertain blocked u h m = cc h
from_uncertain needs_review u h m = cc h

settling : (kind : Settlement) → Move sending (settled_status kind)
settling Settlement.delivered = deliver
settling Settlement.failed = reject
settling Settlement.uncertain = lose
settling Settlement.needs_review = escalate
settling Settlement.blocked = give_up
settling Settlement.pending = defer

-- One of two statuses, in place of a test for them.
either :
    (a b u : ReceiptStatus) (P : ReceiptStatus → Type 0)
    → (status_eq u a || status_eq u b) ≡ true
    → P a
    → P b
    → P u
either a b u P h pa pb = elim (Bool-cases (status_eq u a)) [
  | inl e ↦ subst P (sym (same_status u a e)) pa
  | inr e ↦ subst P (sym (same_status u b (rw e at h))) pb
]

closing :
    (s u : ReceiptStatus)
    → is_ambiguous s ≡ true
    → (status_eq u delivered || status_eq u blocked) ≡ true
    → Move s u
closing pending u h k = cc h
closing sending u h k = cc h
closing delivered u h k = cc h
closing failed u h k = cc h
closing uncertain u h k = either delivered blocked u (Move uncertain) k prove close
closing blocked u h k = cc h
closing needs_review u h k = either delivered blocked u (Move needs_review) k approve dismiss

one : {s u : ReceiptStatus} → Move s u → Moves s u
one m = then_move stay m

-- Each transition that the functions give, where its predicate holds, is a move or no move.
moved-Moves :
    (now : ℕ) (t : Transition) (r : DeliveryReceipt)
    → is_proper t ≡ true
    → predicate now t r ≡ true
    → Moves r.status (moved now t r).status
unfolding predicate moved assignments
moved-Moves now (Transition.lease_expired error) r p h =
    one (from_sending r.status uncertain (ground arith) lose)
moved-Moves now (Transition.claim owner seconds) r p h =
    one (from_open r.status sending (ground arith) claim_pending claim_failed)
moved-Moves now (Transition.renew_lease seconds owner epoch) r p h = stay
moved-Moves now (Transition.start_effect owner epoch) r p h = stay
moved-Moves now (Transition.record_provider_ref ref owner epoch) r p h = stay
moved-Moves now (Transition.settled kind ref error delay owner epoch) r p h =
    one (from_sending r.status (settled_status kind) (ground arith) (settling kind))
moved-Moves now (Transition.block error) r p h =
    one (from_open r.status blocked h block_pending block_failed)
moved-Moves now (Transition.review_uncertain error version) r p h =
    one (from_uncertain r.status needs_review (ground arith) review)
moved-Moves now (Transition.reconcile_known_ref status error version ref) r p h = one (
    from_uncertain r.status status (ground arith)
      (either delivered needs_review status (Move uncertain) p prove review))
moved-Moves now (Transition.resolved disposition status error expected version) r p h =
    let same = same_status r.status expected (ground arith) in
    let ambiguous : is_ambiguous expected ≡ true = ground arith in
    one (closing r.status status (rw same ambiguous) (ground arith))

chain : {s t u : ReceiptStatus} → Moves s t → Moves t u → Moves s u
chain m stay = m
chain m (then_move n o) = then_move (chain m n) o

-- The receipt is there, at a status that the machine reaches.
abbrev pub Follows : ReceiptStatus → Option DeliveryReceipt → Type 0
Follows s none = ⊥
Follows s (some r) = Moves s r.status

-- The functions of receipts.py refine the machine `Move`: through any sessions over them, in any
-- order, a receipt that is there stays there, and its status goes only by moves of the machine.
pub status-Follows :
    (key : Key) (r : DeliveryReceipt) (steps : List (Conn × ReceiptStep)) (db : Db)
    → receipt key db ≡ some r
    → Follows r.status (receipt key (take_steps steps db))
status-Follows key r steps db found =
    OfReceipt-steps key (Follows r.status)
      (λ now t s proper holds h. chain h (moved-Moves now t s proper holds)) (λ now h. absurd h)
      steps db (rw found stay)
