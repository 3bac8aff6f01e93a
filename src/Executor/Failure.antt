-- ===== src/Executor/Failure.antt =====
-- executor/runner.py: what a failure says of itself, and its record.
pub mod Recorded
use workflow_runtime_core.Base.{
  concat, ℕ, ◌+◌, String, Bool, true, false, not, ◌&&◌, Option, none, some, List, ltb, str_eq, leb,
  if◌then◌else◌,
}
use workflow_runtime_core.Exec.{
  Error, Result, ok, err, Exec, pure, raise, modify, ◌>>=◌, ◌>>◌, schema_version_mismatch,
  in_failed_transaction,
}
use workflow_runtime_core.Json
use workflow_runtime_core.Json.{Json, bool, num, str, obj, Fields, end, field}
use workflow_runtime_core.Models.{RunRecord}
use workflow_runtime_core.Db.{Db, Conn, at_least}
use workflow_runtime_core.Registry.Record.{get_run, truncate, truthy}
use workflow_runtime_core.Registry.Outcome.{mark_failed, mark_failed_structured}
use workflow_runtime_core.Registry.Metadata.{read_execution_metadata}

-- An exception: the name of its type, its text, and the attributes that the runner looks for,
-- `none` where it has no such attribute. Python values that are no JSON are as good as null here.
pub record Raised : Type 0 where
  pub type_name : String
  pub message : String
  pub stage : Option Json
  pub error_type : Option Json
  pub retryable : Option Json

abbrev non_empty_text : String → Option Json → String
non_empty_text default (some (str s)) = if str_eq s "" then default else s
non_empty_text default _ = default

-- `_declared_stage`
unfoldable pub declared_stage : Raised → String → String
declared_stage exc default = non_empty_text default exc.stage

abbrev verdict : Option Json → Bool
verdict (some (bool b)) = b
verdict _ = true

-- `_declared_retryable`
unfoldable pub declared_retryable : Raised → Bool
declared_retryable exc = verdict exc.retryable

-- `_StageError`
unfoldable pub stage_error : String → String → Raised → Raised
stage_error stage prefix cause = record {
  type_name = "_StageError";
  message = concat prefix cause.message;
  stage = some (str stage);
  error_type = some (str cause.type_name);
  retryable = some (bool (declared_retryable cause));
}

abbrev count_of : Option Json → ℕ
count_of (some (num n)) = n
count_of _ = 0

-- `_nodes_completed_so_far`
unfoldable pub nodes_completed_so_far : Option Fields → ℕ
nodes_completed_so_far none = 0
nodes_completed_so_far (some progress) = count_of (Json.get "nodes_completed" progress)

abbrev node_of : Option Json → Option String
node_of (some (str s)) = truthy (some s)
node_of _ = none

-- `_last_node`
unfoldable pub last_node : Option Fields → Option String
last_node none = none
last_node (some progress) = node_of (Json.get "node" progress)

abbrev pub same_node : Option String → Option String → Bool
same_node none none = true
same_node none (some b) = false
same_node (some a) none = false
same_node (some a) (some b) = str_eq a b

abbrev same_type : Option Json → Json → Bool
same_type (some (str prior)) (str t) = str_eq prior t
same_type _ _ = false

-- `_is_deterministic_repeat`
unfoldable pub is_deterministic_repeat : Json → Option String → Option Fields → Option Fields → Bool
is_deterministic_repeat error_type current none prior_progress = false
is_deterministic_repeat error_type current (some prior_failure) prior_progress =
    same_type (Json.get "error_type" prior_failure) error_type
    && same_node (last_node prior_progress) current

has_client : Fields → Bool
has_client end = false
has_client (field k (str s) d) = if str_eq s "client" then true else has_client d
has_client (field k v d) = has_client d

abbrev payer : Bool → String
payer true = "client"
payer false = "operator"

abbrev policy_payer : Option Json → Option String
policy_payer (some (str s)) = if str_eq s "" then none else some (payer (str_eq s "client"))
policy_payer _ = none

funded_by : Option Json → Option Json → Option String
unfolding has_client
funded_by (some (obj (field k v d))) policy = some (payer (has_client (field k v d)))
funded_by _ policy = policy_payer policy

-- `_spends`
unfoldable pub spends : Option Fields → Option String
unfolding funded_by
spends none = none
spends (some pinned) = funded_by (Json.get "funding" pinned) (Json.get "credential_policy" pinned)

abbrev repeats : Json → Option String → Option RunRecord → Bool
repeats error_type current none = false
repeats error_type current (some prior) =
    is_deterministic_repeat error_type current prior.error_json prior.progress_json

abbrev predecessor : Option String → Db → Option RunRecord
predecessor none db = none
predecessor (some retry_of) db = get_run retry_of db

-- Whether the run's predecessor failed in the same way. The node is the one in the record of the
-- run as it was claimed.
unfoldable pub is_repeat : RunRecord → Json → Db → Bool
is_repeat run error_type db =
    repeats error_type (last_node run.progress_json) (predecessor (truthy run.retry_of) db)

abbrev or_attribute : Option Json → Json → Json
or_attribute none d = d
or_attribute (some v) d = v

abbrev pub error_type_of : Raised → Json
error_type_of exc = or_attribute exc.error_type (str exc.type_name)

abbrev pub stage_of : Raised → Json
stage_of exc = or_attribute exc.stage (str "graph")

abbrev pub with_reason : Bool → Fields → Fields
with_reason true failure = Json.put "reason" (str "deterministic-repeat") failure
with_reason false failure = failure

abbrev pub with_spends : Option String → Fields → Fields
with_spends none failure = failure
with_spends (some payer) failure = Json.put "spends" (str payer) failure

-- The payload of `_record_failure`, but for `spends`.
unfoldable pub failure_payload : String → Raised → Bool → Fields
failure_payload correlation_id exc repeated =
    let judged = declared_retryable exc && repeated in
    with_reason judged (
      field "stage" (stage_of exc) (
        field "error_type" (error_type_of exc) (
          field "message" (str (truncate 2000 exc.message)) (
            field "retryable" (bool (declared_retryable exc && not repeated))
              (field "correlation_id" (str correlation_id) end)))))

abbrev pub exit_ok : ℕ
exit_ok = 0

abbrev pub exit_claim_lost : ℕ
exit_claim_lost = 0

abbrev pub exit_failed : ℕ
exit_failed = 1

-- A statement that the database refused, as against an error raised after it ran. It aborts the
-- transaction: every later statement of it is refused too.
abbrev pub aborts : Error → Bool
aborts schema_version_mismatch = true
aborts _ = false

-- What follows the read of the pinned snapshot, whose exception is swallowed.
unfoldable pub record_with : Conn → String → Fields → Result (Option Fields) → Exec Db (Unit {0})
record_with conn run_id failure (ok pinned) =
    mark_failed_structured conn run_id (with_spends (spends pinned) failure)
record_with conn run_id failure (err e) =
    if aborts e then raise in_failed_transaction else mark_failed_structured conn run_id failure

unfoldable pub record_structured : Conn → RunRecord → Raised → String → Exec Db (Unit {0})
record_structured conn run exc correlation_id db =
    let failure = failure_payload correlation_id exc (is_repeat run (error_type_of exc) db) in
    record_with conn run.run_id failure (read_execution_metadata run.run_id db).0 db

unfoldable pub record_verdict : Conn → RunRecord → Raised → String → Bool → Exec Db (Unit {0})
record_verdict conn run exc correlation_id true = record_structured conn run exc correlation_id
record_verdict conn run exc correlation_id false = mark_failed conn run.run_id exc.message

-- `_record_failure`, in one transaction.
unfoldable pub record_failure : Conn → RunRecord → Raised → Exec Db ℕ
record_failure conn run exc = do
  λ db. record_verdict conn run exc (conn.uuid4 db.minted) (at_least 2 db.version) db
  modify (λ db. record db { minted = db.minted + 1 })
  pure exit_failed
