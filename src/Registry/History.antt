-- ===== src/Registry/History.antt =====
-- The operations of registry.py as the requests of sessions, one transaction each: what
-- `registry.connect` commits when the block ends, and rolls back when it raises.
pub mod Sound
use workflow_runtime_core.Base.{
  ℕ, String, Bool, true, false, ◌≡◌, refl, Option, none, some, List, [], ◌∷◌, inl, inr, Bool-cases,
  arith, not,
}
use workflow_runtime_core.Exec.{Result, ok, err, Exec, settle, transaction, ◌>>=◌, bind-keeps}
use workflow_runtime_core.Json.{Json, Fields}
use workflow_runtime_core.Models.{RunRecord}
use workflow_runtime_core.Db.{Db, Conn, emit, raise_if-keeps}
use workflow_runtime_core.Registry.Create.{NewRun, create_run}
use workflow_runtime_core.Registry.Retry.{RetryArgs, create_retry}
use workflow_runtime_core.Registry.Claim.{
  claim_run, claim_dispatch, set_dispatch, set_input_set, mark_dispatch_failed,
}
use workflow_runtime_core.Registry.Lease.{
  renew_lease, release_lease, release_cancelled_attempt_lease, requeue_expired_lease,
  record_progress,
}
use workflow_runtime_core.Registry.Outcome.{
  mark_paused, mark_completed, mark_failed, mark_failed_structured, request_resume, cancel_run,
}
use workflow_runtime_core.Registry.Metadata.{
  pin_execution_metadata, record_credential_sources, record_spend_ceiling, record_degradations,
}
use workflow_runtime_core.Registry.Retention.{
  mark_retention_started, delete_run, prune_terminal_runs,
}
use workflow_runtime_core.Registry.Events.{record_event}

-- Every function of registry.py that writes, with its arguments.
pub data Request : Type 0 where
  create : NewRun → Request
  retry : String → RetryArgs → Request
  claim : String → Request
  claim_message : String → String → String → ℕ → Request
  dispatch : String → String → Request
  input_set : String → String → Request
  dispatch_failed : String → String → Request
  renew : String → String → ℕ → Request
  release : String → Request
  release_cancelled : String → ℕ → String → Request
  requeue_expired : String → Request
  progress : String → Fields → Request
  pause : String → Json → Request
  complete : String → Option Fields → Bool → Request
  fail : String → String → Request
  fail_structured : String → Fields → Request
  resume : String → Json → Request
  cancel : String → Request
  pin : String → Fields → Request
  credential_sources : String → Fields → ℕ → Request
  spend_ceiling : String → ℕ → Request
  degradations : String → List Fields → ℕ → Request
  event : String → String → Option Fields → Request
  retention_started : String → Request
  delete_one : String → ℕ → Request
  prune : ℕ → Request

-- The database that a session leaves.
unfoldable pub commit : {A : Type 0} → Exec Db A → Db → Db
commit m db = (transaction m db).1

unfoldable pub perform : Conn → Request → Db → Db
perform conn (create new) = commit (create_run conn new)
perform conn (retry k args) = commit (create_retry conn k args)
perform conn (claim k) = commit (claim_run conn k)
perform conn (claim_message k d owner s) = commit (claim_dispatch conn k d owner s)
perform conn (dispatch k d) = commit (set_dispatch conn k d)
perform conn (input_set k i) = commit (set_input_set conn k i)
perform conn (dispatch_failed k reason) = commit (mark_dispatch_failed conn k reason)
perform conn (renew k owner s) = commit (renew_lease conn k owner s)
perform conn (release k) = commit (release_lease conn k)
perform conn (release_cancelled k n owner) = commit (release_cancelled_attempt_lease conn k n owner)
perform conn (requeue_expired k) = commit (requeue_expired_lease conn k)
perform conn (progress k p) = commit (record_progress conn k p)
perform conn (pause k payload) = commit (mark_paused conn k payload)
perform conn (complete k artifacts published) = commit (mark_completed conn k artifacts published)
perform conn (fail k message) = commit (mark_failed conn k message)
perform conn (fail_structured k failure) = commit (mark_failed_structured conn k failure)
perform conn (resume k payload) = commit (request_resume conn k payload)
perform conn (cancel k) = commit (cancel_run conn k)
perform conn (pin k metadata) = commit (pin_execution_metadata conn k metadata)
perform conn (credential_sources k sources n) = commit (record_credential_sources conn k sources n)
perform conn (spend_ceiling k minutes) = commit (record_spend_ceiling conn k minutes)
perform conn (degradations k entries n) = commit (record_degradations conn k entries n)
perform conn (event k kind detail) = commit (record_event conn k kind detail)
perform conn (retention_started k) = commit (mark_retention_started conn k)
perform conn (delete_one k days) = commit (delete_run conn k days)
perform conn (prune days) = commit (prune_terminal_runs conn days)

-- Sessions one after the other, each with its own clocks.
unfoldable pub history : List (Conn × Request) → Db → Db
history [] db = db
history ((conn, request) ∷ rest) db = history rest (perform conn request db)

-- Empty tables, at a version of the schema. registry.py does not read the ledger.
abbrev pub migrated : ℕ → Db
migrated version = record {
  version = some version;
  runs = [];
  events = [];
  next_event_id = 1;
  inbox = [];
  launches = [];
  outbox = [];
  receipts = [];
  receipt_events = [];
  ledger = none;
  executed = [];
  minted = 0;
  drawn = 0;
}
