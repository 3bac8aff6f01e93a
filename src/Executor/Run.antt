-- ===== src/Executor/Run.antt =====
-- executor/runner.py: `run_once`, `execute` and the record of the outcome.
pub mod Lost
pub mod Queued
pub mod Finalize
use workflow_runtime_core.Base.{
  ℕ, String, Bool, true, false, not, Option, none, some, List, [], ◌∷◌, is_blank, if◌then◌else◌,
}
use workflow_runtime_core.Exec.{
  Result, ok, err, Exec, pure, raise, gets, raise_if, ◌>>=◌, ◌>>◌, transaction, value_error,
  schema_version_mismatch,
}
use workflow_runtime_core.Models.{RunRecord, RunStatus, is_terminal}
use workflow_runtime_core.Db.{Db, Conn, at_least}
use workflow_runtime_core.Schema.{
  require_compatible_schema, supported_schema_min, supported_schema_max,
}
use workflow_runtime_core.Registry.Record.{get_run, truthy}
use workflow_runtime_core.Registry.Claim.{claim_run}
use workflow_runtime_core.Registry.Outcome.{mark_paused, mark_completed, mark_failed}
use workflow_runtime_core.Messaging.Outbox.{OutboxMessage, enqueue_all}
use workflow_runtime_core.Executor.Failure.{
  Raised, record_failure, exit_ok, exit_failed, exit_claim_lost,
}
use workflow_runtime_core.Executor.Drive.{
  TerminalProjection, Binding, Setting, Driven, paused, terminal, failed, lost, drive,
}

-- `_require_messaging_schema`
unfoldable pub require_messaging_schema : Exec Db (Unit {0})
require_messaging_schema db = raise_if (not (at_least 3 db.version)) schema_version_mismatch db

unfoldable pub queue_outbox : Conn → List OutboxMessage → Exec Db (Unit {0})
queue_outbox conn [] = pure tt
queue_outbox conn (m ∷ messages) = do
  require_messaging_schema
  enqueue_all conn (m ∷ messages)
  pure tt

abbrev error_text : Option String → String
error_text none = "run failed"
error_text (some s) = s

abbrev pub is_failure : RunStatus → Bool
is_failure RunStatus.failed = true
is_failure _ = false

unfoldable pub mark_projection : Conn → RunRecord → TerminalProjection → Bool → Exec Db ℕ
mark_projection conn run p true = do
  mark_failed conn run.run_id (error_text (truthy p.error))
  pure exit_failed
mark_projection conn run p false = do
  mark_completed conn run.run_id p.artifacts p.artifacts_published
  pure exit_ok

-- `_finalize`: the outbox rows and the terminal status in one transaction.
unfoldable pub finalize : Conn → RunRecord → TerminalProjection → Exec Db ℕ
finalize conn run p =
    transaction (do queue_outbox conn p.outbox; mark_projection conn run p (is_failure p.status))

-- What follows `_drive`.
unfoldable pub record_outcome : Conn → RunRecord → Driven → Exec Db ℕ
record_outcome conn run lost = pure exit_claim_lost
record_outcome conn run (failed e) = transaction (record_failure conn run e)
record_outcome conn run (paused payload) =
    transaction (do mark_paused conn run.run_id payload; pure exit_ok)
record_outcome conn run (terminal p) = finalize conn run p

abbrev is_blank_dsn : Option String → Bool
is_blank_dsn none = false
is_blank_dsn (some dsn) = is_blank dsn

-- `execute`
unfoldable pub execute : Conn → Setting → Binding → Option String → RunRecord → Exec Db ℕ
execute conn setting binding checkpoint_dsn run = do
  raise_if (is_blank_dsn checkpoint_dsn) value_error
  λ db. let (driven, db') = drive setting binding run db in record_outcome conn run driven db'

-- What the registry says of the run: an exit code, or the claimed run.
pub data Start : Type 0 where
  stop : ℕ → Start
  go : RunRecord → Start

abbrev claimed : Option RunRecord → Start
claimed none = stop exit_claim_lost
claimed (some run) = go run

unfoldable pub start_run : Conn → String → Option RunRecord → Exec Db Start
start_run conn run_id none = pure (stop exit_failed)
start_run conn run_id (some run) =
    if is_terminal run.status
    then pure (stop exit_ok)
    else (do found ← claim_run conn run_id; pure (claimed found))

-- The connection of `run_once`, which is closed before the graph runs.
unfoldable pub claim_once : Conn → String → Exec Db Start
claim_once conn run_id = transaction (do
  require_compatible_schema conn supported_schema_min supported_schema_max
  found ← gets (get_run run_id)
  start_run conn run_id found)

unfoldable pub execute_started : Conn → Setting → Binding → Option String → Start → Exec Db ℕ
execute_started conn setting binding checkpoint_dsn (stop code) = pure code
execute_started conn setting binding checkpoint_dsn (go run) =
    execute conn setting binding checkpoint_dsn run

-- `run_once`. `first` is the session that claims, `conn` the one that records the outcome.
unfoldable pub run_once : Conn → Conn → Setting → Binding → Option String → String → Exec Db ℕ
run_once first conn setting binding checkpoint_dsn run_id = do
  raise_if (is_blank_dsn checkpoint_dsn) value_error
  started ← claim_once first run_id
  execute_started conn setting binding checkpoint_dsn started
