-- ===== src/Messaging/Receipts/Settle.antt =====
-- messaging/receipts.py: what the worker that holds a claim may do.
use workflow_runtime_core.Base.{
  ℕ, ◌+◌, ◌*◌, String, Bool, false, not, ◌&&◌, ◌||◌, Option, none, some, ltb, leb, ◌==◌, str_eq,
  codes, is_blank, length,
}
use workflow_runtime_core.Exec.{Exec, raise_if, ◌>>=◌, ◌>>◌, value_error}
use workflow_runtime_core.Json.{Json, str, Fields, get}
use workflow_runtime_core.Db.{Db, Conn, microseconds}
use workflow_runtime_core.Messaging.Backoff.{next_delay_seconds}
use workflow_runtime_core.Messaging.Receipts.Transition.{Key, Settlement, Transition}
use workflow_runtime_core.Messaging.Receipts.Ops.{service, ReceiptActor, make_actor, changes}

-- `_worker`, whose transition holds the fences.
unfoldable pub worker : Conn → Key → String → Transition → String → Option Fields → Exec Db Bool
worker conn key owner t reason evidence = do
  actor ← make_actor service owner
  changes conn key t actor reason evidence

-- A lease that is not positive is refused as 0 is.
unfoldable pub renew_lease : Conn → Key → String → ℕ → ℕ → Exec Db Bool
renew_lease conn key owner epoch seconds = do
  raise_if (seconds == 0) value_error
  worker conn key owner (Transition.renew_lease seconds owner epoch) "Worker renewed lease" none

unfoldable pub start_effect : Conn → Key → String → ℕ → Exec Db Bool
start_effect conn key owner epoch =
    worker conn key owner (Transition.start_effect owner epoch)
      "Provider effect authorized to start" none

unfoldable pub record_provider_ref : Conn → Key → String → ℕ → String → Exec Db Bool
record_provider_ref conn key owner epoch ref = do
  raise_if (is_blank ref || ltb 2000 (length (codes ref))) value_error
  worker conn key owner (Transition.record_provider_ref ref owner epoch)
      "Provider reference persisted" none

abbrev error_of : Settlement → String → Option String
error_of Settlement.delivered reason = none
error_of Settlement.failed reason = some reason
error_of Settlement.uncertain reason = some reason
error_of Settlement.needs_review reason = some reason
error_of Settlement.blocked reason = some reason
error_of Settlement.pending reason = some reason

-- `_settle`, with the delay in microseconds.
unfoldable pub settle :
    Conn → Key → String → ℕ → Settlement → String → Option String → Option Fields → ℕ → Exec Db Bool
settle conn key owner epoch kind reason ref evidence delay =
    worker conn key owner (Transition.settled kind ref (error_of kind reason) delay owner epoch)
      reason evidence

unfoldable pub mark_delivered : Conn → Key → String → ℕ → Option String → Exec Db Bool
mark_delivered conn key owner epoch ref =
    settle conn key owner epoch Settlement.delivered "Provider confirmed effect" ref none 0

abbrev is_str_of : String → Option Json → Bool
is_str_of s (some (str t)) = str_eq t s
is_str_of s _ = false

-- A value that `not value` is false of. Evidence holds texts.
abbrev pub is_given : Option Json → Bool
is_given (some (str s)) = not (str_eq s "")
is_given _ = false

unfoldable pub mark_failed : Conn → Key → String → ℕ → String → ℕ → Fields → Exec Db Bool
mark_failed conn key owner epoch error attempts evidence = do
  raise_if
      (not (
        is_str_of "definitive_no_effect" (get "outcome" evidence)
        && is_given (get "adapter_code" evidence)))
      value_error
  λ db.
      settle conn key owner epoch Settlement.failed error none (some evidence)
        (next_delay_seconds conn db.drawn attempts) (record db { drawn = db.drawn + 1 })

unfoldable pub mark_uncertain : Conn → Key → String → ℕ → String → Option String → Exec Db Bool
mark_uncertain conn key owner epoch reason ref =
    settle conn key owner epoch Settlement.uncertain reason ref none 0

unfoldable pub mark_needs_review : Conn → Key → String → ℕ → String → Fields → Exec Db Bool
mark_needs_review conn key owner epoch reason evidence =
    settle conn key owner epoch Settlement.needs_review reason none (some evidence) 0

unfoldable pub block : Conn → Key → String → ReceiptActor → Exec Db Bool
block conn key reason actor = changes conn key (Transition.block reason) actor reason none

unfoldable pub block_unstarted : Conn → Key → String → ℕ → String → Exec Db Bool
block_unstarted conn key owner epoch reason =
    settle conn key owner epoch Settlement.blocked reason none none 0

-- The delay is in microseconds.
unfoldable pub defer_unstarted : Conn → Key → String → ℕ → String → ℕ → Exec Db Bool
defer_unstarted conn key owner epoch reason delay = do
  raise_if (not (ltb 0 delay && leb delay (3600 * microseconds))) value_error
  settle conn key owner epoch Settlement.pending reason none none delay
