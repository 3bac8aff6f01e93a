-- ===== src/Models.antt =====
-- models.py: the run record and the projections a client may see.
pub mod Public
use workflow_runtime_core.Base.{
  ◌≡◌, ap, ℕ, String, Bool, true, false, not, ◌||◌, Option, none, some, str_eq, ltb, is_some,
  if◌then◌else◌,
}
use workflow_runtime_core.Json
use workflow_runtime_core.Json.{Json, bool, num, str, obj, Fields, end, field}

-- `RunStatus`, and its values as the status column has them.
pub data RunStatus : Type 0 where
  queued running paused completed failed cancelled : RunStatus

pub RunStatus-discrete : Discrete RunStatus
RunStatus-discrete = hlevel

abbrev pub status_value : RunStatus → String
status_value queued = "queued"
status_value running = "running"
status_value paused = "paused"
status_value completed = "completed"
status_value failed = "failed"
status_value cancelled = "cancelled"

abbrev pub is_queued : RunStatus → Bool
is_queued queued = true
is_queued _ = false

abbrev pub is_running : RunStatus → Bool
is_running running = true
is_running _ = false

abbrev pub is_paused : RunStatus → Bool
is_paused paused = true
is_paused _ = false

abbrev pub is_failed : RunStatus → Bool
is_failed failed = true
is_failed _ = false

abbrev pub is_cancelled : RunStatus → Bool
is_cancelled cancelled = true
is_cancelled _ = false

-- TERMINAL_STATUSES
abbrev pub is_terminal : RunStatus → Bool
is_terminal completed = true
is_terminal failed = true
is_terminal cancelled = true
is_terminal _ = false

-- A `runs` row, and the `RunRecord` read from it. Times are microseconds.
pub record RunRecord : Type 0 where
  pub run_id : String
  pub workflow : String
  pub thread_id : String
  pub status : RunStatus
  pub client_slug : Option String
  pub config_json : Fields
  pub image_tag : Option String
  pub job_template_json : Option Fields
  pub created_at : ℕ
  pub updated_at : ℕ
  pub interrupt_payload : Option Json
  pub error : Option String
  pub artifacts_json : Option Fields
  pub idempotency_key : Option String
  pub workspace_id : Option String
  pub retry_of : Option String
  pub attempt_no : ℕ
  pub dispatch_id : Option String
  pub lease_owner : Option String
  pub lease_expires_at : Option ℕ
  pub heartbeat_at : Option ℕ
  pub progress_json : Option Fields
  pub error_json : Option Fields
  pub delivery_count : ℕ
  pub artifacts_published_at : Option ℕ
  pub input_set_id : Option String
  pub execution_metadata_json : Option Fields
  pub execution_metadata_column_present : Bool

-- PUBLIC_EXECUTION_METADATA_KEYS
unfoldable pub is_public_key : String → Bool
is_public_key k = str_eq k "credential_sources" || str_eq k "degradations"

unfoldable pub public_execution_metadata : Option Fields → Fields
unfolding is_public_key
public_execution_metadata none = end
public_execution_metadata (some raw) = Json.restrict is_public_key raw

positive_minutes : Option Json → Option ℕ
positive_minutes (some (num n)) = if ltb 0 n then some n else none
positive_minutes _ = none

ceiling_minutes : Option Json → Option ℕ
unfolding positive_minutes
ceiling_minutes (some (obj ceiling)) = positive_minutes (Json.get "max_runtime_minutes" ceiling)
ceiling_minutes _ = none

ceiling_of : Option Fields → Option ℕ
unfolding ceiling_minutes
ceiling_of none = none
ceiling_of (some raw) = ceiling_minutes (Json.get "spend_ceiling" raw)

unfoldable pub spend_ceiling_minutes : RunRecord → Option ℕ
unfolding ceiling_of
spend_ceiling_minutes run = ceiling_of run.execution_metadata_json

usage_of : Option ℕ → Fields
usage_of (some minutes) =
    field "status" (str "reserved") (field "max_runtime_minutes" (num minutes) end)
usage_of none = field "status" (str "unavailable") end

pub usage : RunRecord → Fields
unfolding usage_of
usage run = usage_of (spend_ceiling_minutes run)

pub usage-ceiling :
    (run other : RunRecord)
    → spend_ceiling_minutes run ≡ spend_ceiling_minutes other
    → usage run ≡ usage other
unfolding usage
usage-ceiling run other same = ap usage_of same

-- The four answers of `cancellation_state`.
pub data CancellationState : Type 0 where
  not_requested confirmed requested unavailable : CancellationState

abbrev expires_after : Option ℕ → ℕ → Bool
expires_after none now = false
expires_after (some t) now = ltb now t

unfoldable pub cancellation_state : RunRecord → ℕ → CancellationState
cancellation_state run now =
    if not (is_cancelled run.status)
    then not_requested
    else if not (is_some run.workspace_id)
    then unavailable
    else if not (is_some run.lease_owner)
    then confirmed
    else if expires_after run.lease_expires_at now
    then requested
    else unavailable
