-- ===== src/Messaging/Receipts/Steps.antt =====
-- Any sequence of sessions over the functions of receipts.py that write, one transaction each.
use workflow_runtime_core.Base.{ℕ, String, Bool, Option, List, [], ◌∷◌, ℤ}
use workflow_runtime_core.Exec.{Exec}
use workflow_runtime_core.Json.{Fields}
use workflow_runtime_core.Db.{Db, Conn, DeliveryReceipt, ReceiptStatus}
use workflow_runtime_core.Registry.History.{commit}
use workflow_runtime_core.Messaging.Receipts.Review
use workflow_runtime_core.Messaging.Receipts.Settle
use workflow_runtime_core.Messaging.Receipts.Transition.{Key, Disposition}
use workflow_runtime_core.Messaging.Receipts.Ops
use workflow_runtime_core.Messaging.Receipts.Ops.{ReceiptActor}

-- What the holder of a claim can do, with the arguments beside the key, the owner and the epoch.
pub data WorkerStep : Type 0 where
  renew : ℕ → WorkerStep
  start : WorkerStep
  record_ref : String → WorkerStep
  deliver : Option String → WorkerStep
  fail : String → ℕ → Fields → WorkerStep
  lose : String → Option String → WorkerStep
  escalate : String → Fields → WorkerStep
  give_up : String → WorkerStep
  defer : String → ℕ → WorkerStep

unfoldable pub work : Conn → Key → String → ℕ → WorkerStep → Exec Db Bool
work conn key owner epoch (renew seconds) = Settle.renew_lease conn key owner epoch seconds
work conn key owner epoch start = Settle.start_effect conn key owner epoch
work conn key owner epoch (record_ref ref) = Settle.record_provider_ref conn key owner epoch ref
work conn key owner epoch (deliver ref) = Settle.mark_delivered conn key owner epoch ref
work conn key owner epoch (fail error attempts evidence) =
    Settle.mark_failed conn key owner epoch error attempts evidence
work conn key owner epoch (lose reason ref) = Settle.mark_uncertain conn key owner epoch reason ref
work conn key owner epoch (escalate reason evidence) =
    Settle.mark_needs_review conn key owner epoch reason evidence
work conn key owner epoch (give_up reason) = Settle.block_unstarted conn key owner epoch reason
work conn key owner epoch (defer reason delay) =
    Settle.defer_unstarted conn key owner epoch reason delay

-- Every function of receipts.py that writes.
pub data ReceiptStep : Type 0 where
  open_step : Key → ReceiptActor → ReceiptStep
  claim_step : Key → String → ℤ → ReceiptStep
  claim_due_step :
      (String → String → Bool)
      → (DeliveryReceipt → Bool)
      → String
      → String
      → String
      → ℤ
      → ℕ
      → Option (List String)
      → ReceiptStep
  work_step : Key → String → ℕ → WorkerStep → ReceiptStep
  block_step : Key → String → ReceiptActor → ReceiptStep
  reconcile_step : (String → String → Bool) → (DeliveryReceipt → Bool) → String → ℕ → ReceiptStep
  resolve_step :
      Key → Disposition → ReceiptActor → String → ReceiptStatus → ℕ → Option Fields → ReceiptStep
  review_step : Key → ℕ → ReceiptActor → String → Fields → ReceiptStep
  known_ref_step : Key → String → ℕ → ReceiptActor → String → String → String → ReceiptStep

unfoldable pub take_step : Conn → ReceiptStep → Db → Db
take_step conn (open_step key actor) = commit (Ops.open_receipt conn key actor)
take_step conn (claim_step key owner seconds) = commit (Ops.claim conn key owner seconds)
take_step conn (claim_due_step text_le locked namespace destination owner seconds limit ids) =
    commit (Ops.claim_due conn text_le locked namespace destination owner seconds limit ids)
take_step conn (work_step key owner epoch w) = commit (work conn key owner epoch w)
take_step conn (block_step key reason actor) = commit (Settle.block conn key reason actor)
take_step conn (reconcile_step text_le locked namespace limit) =
    commit (Review.reconcile_stale conn text_le locked namespace limit)
take_step conn (resolve_step key disposition actor note expected version evidence) =
    commit (Review.resolve conn key disposition actor note expected version evidence)
take_step conn (review_step key version actor reason evidence) =
    commit (Review.review_uncertain conn key version actor reason evidence)
take_step conn (known_ref_step key ref version actor expected observed evidence_ref) =
    commit (Review.reconcile_known_ref conn key ref version actor expected observed evidence_ref)

unfoldable pub take_steps : List (Conn × ReceiptStep) → Db → Db
take_steps [] db = db
take_steps ((conn, step) ∷ steps) db = take_steps steps (take_step conn step db)
