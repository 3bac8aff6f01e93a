-- ===== src/Tests/Executor.antt =====
-- Examples of the runner.
use workflow_runtime_core.Base.{
  ◌≡◌, refl, true, not, ◌&&◌, none, some, [], ◌∷◌, arith, All, ℕ, zero, suc, ◌<◌, inr,
}
use workflow_runtime_core.Exec.{ok, err, ◌>>=◌, in_failed_transaction}
use workflow_runtime_core.Json.{null, end}
use workflow_runtime_core.Models.{RunRecord, RunStatus, running}
use workflow_runtime_core.Db.{Db, row, emit, update_run}
use workflow_runtime_core.Registry.Outcome.{mark_completed}
use workflow_runtime_core.Registry.Lifecycle.{status_of}
use workflow_runtime_core.Messaging.Outbox.{enqueue, enqueue_all, insert_message, message}
use workflow_runtime_core.Executor.Failure.{
  Raised, declared_retryable, is_repeat, error_type_of, record_failure, exit_ok, exit_failed,
  exit_claim_lost,
}
use workflow_runtime_core.Executor.Failure.Recorded.{
  IsRecorded, record_failure-IsRecorded, record_failure-refused,
}
use workflow_runtime_core.Executor.Stream.{
  Stream, Lease, Answer, held, dropped, finished, nothing, deadline, with_deadline,
}
use workflow_runtime_core.Executor.Stream.Renewal.{Outcome, asked_at, answered_at}
use workflow_runtime_core.Executor.Drive.{
  TerminalProjection, Graph, Binding, Setting, done, prepare, stream_config,
}
use workflow_runtime_core.Executor.Run.{
  execute, finalize, queue_outbox, mark_projection, require_messaging_schema,
}
use workflow_runtime_core.Executor.Run.Lost.{Quiet, execute-Quiet}
use workflow_runtime_core.Executor.Run.Finalize.{finalize-IsQueued}
use workflow_runtime_core.Executor.Run.Queued.{IsQueued}
use workflow_runtime_core.Tests.Samples.{session, run_in, db_with, reply}

abbrev claimed : RunRecord
claimed = run_in running none none

abbrev busy : Db
busy = db_with (claimed ∷ [])

-- A stream of one node and thirty microseconds.
abbrev thirty : Stream
thirty = record {
  chunks =
      record {
        offset = 5;
        keys = "research" ∷ [];
        interrupts = nothing;
        conn = session 5;
        now = 5;
        clock = 6;
      }
      ∷ [];
  ends_at = 30;
  ending = finished;
  on_cancel = λ time. record { lasts = 4; late = []; raised = none };
  on_second_cancel = λ first second. record { lasts = 0; late = []; raised = none };
}

abbrev answers : ℕ → Answer
answers zero = held
answers (suc n) = dropped

-- A lease that is lost at its second renewal, after three microseconds.
abbrev losing : Lease
losing = record { interval = 10; takes = λ n. 3; answer = answers }

abbrev projection : TerminalProjection
projection = record {
  status = RunStatus.completed;
  artifacts = some end;
  error = none;
  outbox = reply ∷ [];
  artifacts_published = true;
}

abbrev graph : Graph
graph = record { stream = λ payload config context. thirty; state = done null }

abbrev binding : Binding
binding = record {
  execution_scope = λ run. none;
  resolve_graph = λ workflow. done graph;
  build_input = λ run. done null;
  build_context = λ run. done null;
  build_invoke_config = none;
  default_deadline = λ run. none;
  project_terminal = λ run snapshot. done projection;
}

abbrev setting : Setting
setting = record {
  open_checkpointer = none;
  deadline_seconds = some 1000;
  lease = some losing;
  progress_interval = 15;
  conn = session 40;
  clock = 40;
}

first_held : (k : ℕ) → k < 1 → answers k ≡ held
first_held zero low = refl
first_held (suc k) low = absurd (omega arith)

execute-Quiet_example :
    ((execute (session 50) setting binding none claimed busy).0 ≡ ok exit_claim_lost)
    × Quiet busy (execute (session 50) setting binding none claimed busy).1
unfolding prepare stream_config with_deadline deadline asked_at answered_at
execute-Quiet_example =
    execute-Quiet (session 50) setting binding none claimed graph thirty losing 1 busy refl refl
      refl (omega arith) (record { early = omega arith; earlier = λ k low. first_held k low }) refl
      (inr (omega arith, refl))

finalize-IsQueued_example :
    (status_of (row "r1" (finalize (session 50) claimed projection busy).1)
      ≡ some RunStatus.completed)
    × (exit_ok ≡ exit_ok)
    × All (λ m. IsQueued m (finalize (session 50) claimed projection busy).1) (reply ∷ [])
unfolding finalize queue_outbox require_messaging_schema enqueue_all enqueue insert_message message
    mark_projection mark_completed update_run emit row ◌>>=◌
finalize-IsQueued_example =
    finalize-IsQueued (session 50) claimed projection busy
      (finalize (session 50) claimed projection busy).1 exit_ok refl

-- An exception of a node.
abbrev timeout : Raised
timeout = record {
  type_name = "TimeoutError";
  message = "no answer";
  stage = none;
  error_type = none;
  retryable = none;
}

record_failure-IsRecorded_example :
    (db' : Db) × (record_failure (session 50) claimed timeout busy ≡ (ok exit_failed, db'))
    × IsRecorded
        (declared_retryable timeout && not (is_repeat claimed (error_type_of timeout) busy))
        (row "r1" db')
unfolding row
record_failure-IsRecorded_example =
    record_failure-IsRecorded (session 50) claimed timeout busy claimed refl refl

record_failure-refused_example :
    record_failure (session 50) claimed timeout (record busy { version = some 3 })
    ≡ (err in_failed_transaction, record busy { version = some 3 })
record_failure-refused_example =
    record_failure-refused (session 50) claimed timeout (record busy { version = some 3 }) refl refl
