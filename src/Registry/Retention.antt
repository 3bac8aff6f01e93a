-- ===== src/Registry/Retention.antt =====
-- registry.py: retention of settled runs.
pub mod Kept
use workflow_runtime_core.Base.{
  ℕ, ◌+◌, ◌*◌, String, Bool, false, not, ◌&&◌, Option, none, some, List, ltb, is_text, length, map,
  select, delete, any, if◌then◌else◌,
}
use workflow_runtime_core.Exec.{ok, Exec, ◌>>◌}
use workflow_runtime_core.Models.{RunRecord, is_terminal}
use workflow_runtime_core.Db.{
  Db, Conn, has_id, at_least, require_version, holds_workspace, emit, microseconds_a_day,
}

abbrev pub is_child : String → RunRecord → Bool
is_child parent child = is_text child.retry_of parent

-- _LINEAGE_SAFE
unfoldable pub is_lineage_safe : List RunRecord → RunRecord → Bool
is_lineage_safe runs r =
    not (any (holds_workspace r.workspace_id) runs) && not (any (is_child r.run_id) runs)

-- status = ANY(terminal) AND updated_at < now() - make_interval(days => days)
unfoldable pub is_stale : Conn → ℕ → RunRecord → Bool
is_stale conn days r =
    is_terminal r.status && ltb (r.updated_at + days * microseconds_a_day) conn.now

-- Whether a row references one of the runs that are deleted.
abbrev pub references : (RunRecord → Bool) → List RunRecord → String → Bool
references doomed runs run_id = any (λ r. doomed r && has_id run_id r) runs

abbrev references? : (RunRecord → Bool) → List RunRecord → Option String → Bool
references? doomed runs none = false
references? doomed runs (some run_id) = references doomed runs run_id

-- DELETE FROM runs WHERE doomed, with the rows that ON DELETE CASCADE takes along.
unfoldable pub delete_runs : (RunRecord → Bool) → Db → Db
delete_runs doomed db = record db {
  runs = delete doomed db.runs;
  events = delete (λ e. references doomed db.runs e.run_id) db.events;
  inbox = delete (λ e. references doomed db.runs e.run_id) db.inbox;
  launches = delete (λ l. references doomed db.runs l.run_id) db.launches;
  outbox = delete (λ m. references? doomed db.runs m.run_id) db.outbox;
}

unfoldable pub mark_retention_started : Conn → String → Exec Db (Unit {0})
mark_retention_started conn run_id = emit conn run_id "retention_started" none

abbrev pub is_reapable : Conn → ℕ → List RunRecord → RunRecord → Bool
is_reapable conn days runs r = is_stale conn days r && is_lineage_safe runs r

unfoldable pub delete_run : Conn → String → ℕ → Exec Db Bool
delete_run conn run_id days = do
  require_version 2
  λ db.
      let doomed = λ (r : RunRecord). has_id run_id r && is_reapable conn days db.runs r in
      (ok (any doomed db.runs), delete_runs doomed db)

unfoldable pub prune_terminal_runs : Conn → ℕ → Exec Db ℕ
prune_terminal_runs conn days db =
    let doomed = λ (r : RunRecord).
      if at_least 2 db.version then is_reapable conn days db.runs r else is_stale conn days r in
    (ok (length (select doomed db.runs)), delete_runs doomed db)

thread_ids : List RunRecord → List String
thread_ids = map (λ r. r.thread_id)

unfoldable pub stale_terminal_thread_ids : Conn → ℕ → Db → List String
unfolding thread_ids
stale_terminal_thread_ids conn days db = thread_ids (select (is_stale conn days) db.runs)
