-- ===== src/Executor/Drive.antt =====
-- executor/runner.py: the stages of one execution, from the scope to the terminal projection.
use workflow_runtime_core.Base.{
  ℕ, String, Bool, Option, none, some, List, [], ◌∷◌, or_else, is_some, if◌then◌else◌,
}
use workflow_runtime_core.Json
use workflow_runtime_core.Json.{Json, str, obj, Fields, end, field}
use workflow_runtime_core.Models.{RunRecord, RunStatus}
use workflow_runtime_core.Db.{Db, Conn}
use workflow_runtime_core.Registry.Outcome.{resume_key}
use workflow_runtime_core.Messaging.Outbox.{OutboxMessage}
use workflow_runtime_core.Executor.Progress.{Recorder, new_recorder, observe, flush}
use workflow_runtime_core.Executor.Failure.{
  Raised, declared_stage, stage_error, nodes_completed_so_far,
}
use workflow_runtime_core.Executor.Stream.{
  Chunk, Ending, finished, broke, lease_lost, Stream, Lease, extract_interrupt, deadline,
  with_deadline, with_lease_renewal,
}

-- A call that may raise.
pub data Attempt {ℓ} (A : Type ℓ) : Type ℓ where
  done : A → Attempt A
  raises : Raised → Attempt A

infixl 5 ◌>>=◌ ◌>>◌
abbrev pub ◌>>=◌ {ℓ κ} : {A : Type ℓ} {B : Type κ} → Attempt A → (A → Attempt B) → Attempt B
done a >>= f = f a
raises e >>= f = raises e

abbrev pub ◌>>◌ {ℓ κ} : {A : Type ℓ} {B : Type κ} → Attempt A → Attempt B → Attempt B
m >> k = m >>= λ _. k

-- `TerminalProjection`
pub record TerminalProjection : Type 0 where
  pub status : RunStatus
  pub artifacts : Option Fields
  pub error : Option String
  pub outbox : List OutboxMessage
  pub artifacts_published : Bool

-- A compiled graph: its stream, from the input, the configuration and the context, and the read
-- of its durable state after it.
pub record Graph : Type 0 where
  pub stream : Json → Fields → Json → Stream
  pub state : Attempt Json

-- `ExecutionBinding`, the consumer's code. The methods that a binding may lack are optional;
-- `execution_scope` is what entering the scope raises, if it does.
pub record Binding : Type 0 where
  pub execution_scope : RunRecord → Option Raised
  pub resolve_graph : String → Attempt Graph
  pub build_input : RunRecord → Attempt Json
  pub build_context : RunRecord → Attempt Json
  pub build_invoke_config : Option (RunRecord → Attempt (Option Fields))
  pub default_deadline : RunRecord → Option ℕ
  pub project_terminal : RunRecord → Json → Attempt TerminalProjection

-- What the execution stands on: what opening the checkpointer raises, if it does, the explicit
-- deadline, the lease, the interval of progress writes, and the last flush's session and clock.
pub record Setting : Type 0 where
  pub open_checkpointer : Option Raised
  pub deadline_seconds : Option ℕ
  pub lease : Option Lease
  pub progress_interval : ℕ
  pub conn : Conn
  pub clock : ℕ

-- try … except Exception as exc: raise _StageError(_declared_stage(exc, default), prefix, exc)
abbrev staged {ℓ} : {A : Type ℓ} → String → String → Attempt A → Attempt A
staged default prefix (done a) = done a
staged default prefix (raises e) = raises (stage_error (declared_stage e default) prefix e)

abbrev graph_stage {ℓ} : {A : Type ℓ} → Attempt A → Attempt A
graph_stage (done a) = done a
graph_stage (raises e) = raises (stage_error "graph" "graph resolution failed: " e)

abbrev attempted : Option Raised → Attempt (Unit {0})
attempted none = done tt
attempted (some e) = raises e

-- {"configurable": {"thread_id": run.thread_id, **config}}
unfoldable pub invoke_config : RunRecord → Fields
invoke_config run =
    let config = Json.pop resume_key run.config_json in
    field "configurable" (obj (Json.merge (field "thread_id" (str run.thread_id) end) config)) end

abbrev reserved_key : Raised
reserved_key = record {
  type_name = "ValueError";
  message = "binding contributed reserved runnable-config key(s)";
  stage = none;
  error_type = none;
  retryable = none;
}

abbrev merged : Fields → Option Fields → Attempt Fields
merged base none = done base
merged base (some extra) =
    if is_some (Json.get "configurable" extra)
    then raises reserved_key
    else done (Json.merge base extra)

abbrev contributed :
    RunRecord → Fields → Option (RunRecord → Attempt (Option Fields)) → Attempt Fields
contributed run base none = done base
contributed run base (some build) = do extra ← build run; merged base extra

-- `_stream_config`
unfoldable pub stream_config : Binding → RunRecord → Fields → Attempt Fields
stream_config binding run base = contributed run base binding.build_invoke_config

-- What comes before the first chunk.
unfoldable pub prepare : Setting → Binding → RunRecord → Attempt (Graph × Stream)
prepare setting binding run = do
  staged "execution_scope" "" (attempted (binding.execution_scope run))
  graph ← graph_stage (binding.resolve_graph run.workflow)
  payload ← staged "inputs" "" (binding.build_input run)
  attempted setting.open_checkpointer
  context ← staged "context" "" (binding.build_context run)
  config ← staged "invoke_config" "" (stream_config binding run (invoke_config run))
  done (graph, graph.stream payload config context)

-- The graph's stream under its deadline and its lease, which is renewed around the deadline.
unfoldable pub bounded : Setting → Binding → RunRecord → Stream → Stream
bounded setting binding run s =
    let limited =
      with_deadline (deadline run (binding.default_deadline run) setting.deadline_seconds) s in
    or_else (with_lease_renewal setting.lease limited) limited

abbrev pub see : Chunk → Option Json → Option Json → Recorder → Db → Option Json × Recorder × Db
see chunk (some payload) paused_at r db = (some payload, r, db)
see chunk none paused_at r db =
    let (r', db') = observe chunk.conn chunk.now chunk.clock chunk.keys r db in (paused_at, r', db')

-- `_consume`, over the chunks that come.
unfoldable pub consume : List Chunk → Option Json → Recorder → Db → Option Json × Recorder × Db
consume [] paused_at r db = (paused_at, r, db)
consume (chunk ∷ chunks) paused_at r db =
    let (paused, r', db') = see chunk (extract_interrupt chunk.interrupts) paused_at r db in
    consume chunks paused r' db'

pub data Driven : Type 0 where
  paused : Json → Driven
  terminal : TerminalProjection → Driven
  failed : Raised → Driven
  lost : Driven

abbrev projected : Attempt TerminalProjection → Driven
projected (done projection) = terminal projection
projected (raises e) = failed e

-- The end of a stream that finished.
unfoldable pub conclude : Binding → RunRecord → Graph → Option Json → Driven
conclude binding run graph (some payload) = paused payload
conclude binding run graph none = projected (
    graph.state >>= λ snapshot.
    staged "artifacts" "terminal projection failed: " (binding.project_terminal run snapshot))

-- A lost lease is not followed by a flush; every other end is.
unfoldable pub close :
    Setting → Binding → RunRecord → Graph → Ending → Option Json → Recorder → Db → Driven × Db
close setting binding run graph lease_lost paused_at r db = (lost, db)
close setting binding run graph (broke e) paused_at r db =
    (failed e, (flush setting.conn setting.clock r db).1)
close setting binding run graph finished paused_at r db =
    (conclude binding run graph paused_at, (flush setting.conn setting.clock r db).1)

unfoldable pub stream_through : Setting → Binding → RunRecord → Graph → Stream → Db → Driven × Db
stream_through setting binding run graph s db =
    let recorder =
      new_recorder run.run_id setting.progress_interval
        (nodes_completed_so_far run.progress_json) in
    let (paused_at, r, db') = consume s.chunks none recorder db in
    close setting binding run graph s.ending paused_at r db'

abbrev drive_prepared : Setting → Binding → RunRecord → Attempt (Graph × Stream) → Db → Driven × Db
drive_prepared setting binding run (raises e) db = (failed e, db)
drive_prepared setting binding run (done (graph, s)) db =
    stream_through setting binding run graph (bounded setting binding run s) db

-- `_drive`
unfoldable pub drive : Setting → Binding → RunRecord → Db → Driven × Db
drive setting binding run db = drive_prepared setting binding run (prepare setting binding run) db
