-- ===== src/Executor/Run/Lost.antt =====
-- A runner that lost its lease leaves the run's outcome to the runner that has it now.
use workflow_runtime_core.Base.{
  ℕ, ◌≤◌, ◌<◌, String, ◌≡◌, refl, sym, ap, ◌∙◌, inl, inr, Bool, true, false, ◌&&◌, Option, none,
  some, List, [], ◌∷◌, map, Bool-cases, update, leb, arith, ◌⊎◌,
}
use mathlib.Core.Path.{subst}
use workflow_runtime_core.Exec.{Result, ok, err, settle, ◌>>=◌, bind-keeps}
use workflow_runtime_core.Json.{Json, Fields}
use workflow_runtime_core.Models.{RunRecord}
use workflow_runtime_core.Db.{Db, Conn, has_id, always, update_run, require_version-keeps}
use workflow_runtime_core.Registry.History.{commit}
use workflow_runtime_core.Registry.Lease.{record_progress}
use workflow_runtime_core.Executor.Progress.{
  Recorder, new_recorder, node_names, snapshot, write, write_unless, count, observe, observe_names,
  is_due,
}
use workflow_runtime_core.Executor.Failure.{exit_claim_lost, nodes_completed_so_far}
use workflow_runtime_core.Executor.Stream.{
  Chunk, Ending, finished, lease_lost, dropped, stopped, Stream, Lease, extract_interrupt, deadline,
  with_deadline, with_lease_renewal,
}
use workflow_runtime_core.Executor.Stream.Renewal.{
  FirstAt, answered_at, dropped-ends, with_lease_renewal-ends,
}
use workflow_runtime_core.Executor.Drive.{
  Binding, Setting, Graph, done, prepare, bounded, see, consume, close, stream_through, Driven,
  lost, drive,
}
use workflow_runtime_core.Executor.Run.{execute, record_outcome, is_blank_dsn}

-- A run but for its progress.
abbrev pub outcome_of : RunRecord → RunRecord
outcome_of r = record r { progress_json = none; heartbeat_at = none; updated_at = 0 }

-- Nothing has changed but the progress of runs.
abbrev pub Quiet : Db → Db → Type 0
Quiet before db =
    (map outcome_of db.runs ≡ map outcome_of before.runs)
    × (record db { runs = [] } ≡ record before { runs = [] })

quiet-update :
    (p : RunRecord → Bool) (f : RunRecord → RunRecord) (runs : List RunRecord)
    → ((r : RunRecord) → outcome_of (f r) ≡ outcome_of r)
    → map outcome_of (update p f runs) ≡ map outcome_of runs
quiet-update p f [] same = refl
quiet-update p f (r ∷ runs) same = elim (Bool-cases (p r)) [
  | inl e ↦ rw (e, same r, quiet-update p f runs same)
  | inr e ↦ rw (e, quiet-update p f runs same)
]

module _ (before : Db) where
  progress-Quiet :
      (conn : Conn) (run_id : String) (progress : Fields) (db : Db)
      → Quiet before db
      → Quiet before (record_progress conn run_id progress db).1
  unfolding record_progress update_run
  progress-Quiet conn run_id progress db h = require_version-keeps (Quiet before) 2 _ db h λ e.
      let after : Quiet before
          (record db { runs = update (λ r. has_id run_id r && always r) _ db.runs }) =
        (quiet-update (λ r. has_id run_id r && always r) _ db.runs (λ r. refl) ∙ h.0, h.1) in
      bind-keeps (Quiet before) _ _ db after λ row found. after

  settle-Quiet :
      {A : Type 0} (db : Db) (r : Result A) (db' : Db)
      → Quiet before db
      → Quiet before db'
      → Quiet before (settle db r db').1
  settle-Quiet db (ok a) db' h k = k
  settle-Quiet db (err e) db' h k = h

  write-Quiet :
      (conn : Conn) (clock : ℕ) (r : Recorder) (db : Db)
      → Quiet before db
      → Quiet before (write conn clock r db).1
  unfolding write commit
  write-Quiet conn clock r db h = go r.disabled
    where
      go : (b : Bool) → Quiet before (write_unless b conn clock r db).1
      go true = h
      go false =
          settle-Quiet db (record_progress conn r.run_id (snapshot conn r) db).0
            (record_progress conn r.run_id (snapshot conn r) db).1 h
            (progress-Quiet conn r.run_id (snapshot conn r) db h)

  observe-Quiet :
      (conn : Conn) (now clock : ℕ) (keys : List String) (r : Recorder) (db : Db)
      → Quiet before db
      → Quiet before (observe conn now clock keys r db).1
  unfolding observe
  observe-Quiet conn now clock keys r db h = go (node_names keys)
    where
      go : (names : List String) → Quiet before (observe_names conn now clock names r db).1
      go [] = h
      go (name ∷ names) = elim (Bool-cases (is_due (count (name ∷ names) r) now r.last_write)) [
        | inl e ↦ rw e (write-Quiet conn clock (count (name ∷ names) r) db h)
        | inr e ↦ rw e h
      ]

  see-Quiet :
      (chunk : Chunk) (found paused_at : Option Json) (r : Recorder) (db : Db)
      → Quiet before db
      → Quiet before (see chunk found paused_at r db).2
  see-Quiet chunk (some payload) paused_at r db h = h
  see-Quiet chunk none paused_at r db h =
      observe-Quiet chunk.conn chunk.now chunk.clock chunk.keys r db h

  consume-Quiet :
      (chunks : List Chunk) (paused_at : Option Json) (r : Recorder) (db : Db)
      → Quiet before db
      → Quiet before (consume chunks paused_at r db).2
  unfolding consume
  consume-Quiet [] paused_at r db h = h
  consume-Quiet (chunk ∷ chunks) paused_at r db h =
      let found = extract_interrupt chunk.interrupts in
      consume-Quiet chunks _ _ _ (see-Quiet chunk found paused_at r db h)

-- A task that does not raise when it is stopped at a time: it has finished by then, or it ends by
-- its cancellation.
abbrev pub Yields : ℕ → Stream → Type 0
Yields time s =
    ((s.ends_at ≤ time) × (s.ending ≡ finished))
    ⊎ ((time < s.ends_at) × ((s.on_cancel time).raised ≡ none))

stopped-lost : (time : ℕ) (s : Stream) → Yields time s → (stopped time s).ending ≡ lease_lost
unfolding stopped
stopped-lost time s (inl (over, ended)) =
    let past : leb s.ends_at time ≡ true = ground (arith, over) in rw (past, ended)
stopped-lost time s (inr (early, quiet)) =
    let going : leb s.ends_at time ≡ false = ground (arith, early) in rw (going, quiet)

-- The stream under its deadline.
abbrev pub limited_by : Setting → Binding → RunRecord → Stream → Stream
limited_by setting binding run s =
    with_deadline (deadline run (binding.default_deadline run) setting.deadline_seconds) s

-- Where the lease is lost, the drive ends there.
module _ (setting : Setting) (binding : Binding) (run : RunRecord) (s : Stream) (lease : Lease)
    (leased : setting.lease ≡ some lease) (ticks : 0 < lease.interval) where
  bounded_lost :
      (n : ℕ)
      → FirstAt lease (limited_by setting binding run s) n
      → lease.answer n ≡ dropped
      → Yields (answered_at lease n) (limited_by setting binding run s)
      → (bounded setting binding run s).ending ≡ lease_lost
  unfolding bounded
  bounded_lost n first refused quiet =
      let task = limited_by setting binding run s in
      let ends =
        dropped-ends lease task (with_lease_renewal (some lease) task) n first refused
          (with_lease_renewal-ends lease task ticks) in
      rw (leased, ends) (stopped-lost (answered_at lease n) task quiet)

close-lost :
    (setting : Setting) (binding : Binding) (run : RunRecord) (graph : Graph) (e : Ending)
    (paused_at : Option Json) (r : Recorder) (db : Db)
    → e ≡ lease_lost
    → close setting binding run graph e paused_at r db ≡ (lost, db)
unfolding close
close-lost setting binding run graph e paused_at r db is_lost = rw is_lost

-- A stream that loses its lease, and what it has written.
stream-lost :
    (setting : Setting) (binding : Binding) (run : RunRecord) (graph : Graph) (s : Stream) (db : Db)
    → s.ending ≡ lease_lost
    → ((stream_through setting binding run graph s db).0 ≡ lost)
      × Quiet db (stream_through setting binding run graph s db).1
unfolding stream_through
stream-lost setting binding run graph s db ends =
    let recorder =
      new_recorder run.run_id setting.progress_interval
        (nodes_completed_so_far run.progress_json) in
    let wrote = consume-Quiet db s.chunks none recorder db (refl, refl) in
    let closed = close-lost setting binding run graph s.ending _ _ _ ends in
    (ap (λ o. o.0) closed, subst (λ o. Quiet db o.1) (sym closed) wrote)

recorded :
    (conn : Conn) (run : RunRecord) (db : Db) (o : Driven × Db)
    → o.0 ≡ lost
    → Quiet db o.1
    → ((record_outcome conn run o.0 o.1).0 ≡ ok exit_claim_lost)
      × Quiet db (record_outcome conn run o.0 o.1).1
unfolding record_outcome
recorded conn run db o e q = rw e (refl, q)

-- A runner that loses its lease records nothing of the outcome: where the checkpoint DSN is not
-- blank, the interval of the lease is positive and the stages before the stream succeed, the first
-- renewal that does not hold is asked for before the stream (under its deadline) ends and answers
-- that the lease is lost, and the task that is stopped then raises nothing but its cancellation,
-- `execute` returns EXIT_CLAIM_LOST, and neither the run's status, lease, artifacts or error nor
-- any other row of the database has changed; only the progress of runs may have been written.
pub execute-Quiet :
    (conn : Conn) (setting : Setting) (binding : Binding) (checkpoint_dsn : Option String)
    (run : RunRecord) (graph : Graph) (s : Stream) (lease : Lease) (n : ℕ) (db : Db)
    → is_blank_dsn checkpoint_dsn ≡ false
    → prepare setting binding run ≡ done (graph, s)
    → setting.lease ≡ some lease
    → 0 < lease.interval
    → FirstAt lease (limited_by setting binding run s) n
    → lease.answer n ≡ dropped
    → Yields (answered_at lease n) (limited_by setting binding run s)
    → ((execute conn setting binding checkpoint_dsn run db).0 ≡ ok exit_claim_lost)
      × Quiet db (execute conn setting binding checkpoint_dsn run db).1
unfolding execute drive ◌>>=◌
execute-Quiet conn setting binding dsn run graph s lease n db clear ready leased ticks first refused
      quiet =
    let ends = bounded_lost setting binding run s lease leased ticks n first refused quiet in
    let (is_lost, wrote) =
      stream-lost setting binding run graph (bounded setting binding run s) db ends in
    rw (clear, ready) (recorded conn run db _ is_lost wrote)
