-- ===== src/Registry/Lifecycle.antt =====
-- The life of a run: the moves between statuses that registry.py makes (RunStatus of models.py).
pub mod Rows
pub mod Claims
pub mod Outcomes
pub mod Details
pub mod Tables
pub mod Sessions
use workflow_runtime_core.Base.{◌≡◌, String, true, false, Option, none, some}
use workflow_runtime_core.Models.{
  RunRecord, RunStatus, queued, running, paused, completed, failed, cancelled, is_terminal,
}
use workflow_runtime_core.Db.{Db, row}

-- What one operation may do to the status of a run; `none` is a run that is not there.
pub data Moves : Option RunStatus → Option RunStatus → Type 0 where
  stays : (o : Option RunStatus) → Moves o o
  created : Moves none (some queued)
  claimed : Moves (some queued) (some running)
  reclaimed : Moves (some running) (some running)
  requeued : Moves (some running) (some queued)
  resumed : Moves (some paused) (some queued)
  stopped : (s : RunStatus) → is_terminal s ≡ false → Moves (some s) (some cancelled)
  paused_in : (s : RunStatus) → Moves (some s) (some paused)
  completed_in : (s : RunStatus) → Moves (some s) (some completed)
  failed_in : (s : RunStatus) → Moves (some s) (some failed)
  deleted : (s : RunStatus) → is_terminal s ≡ true → Moves (some s) none

abbrev pub status_of : Option RunRecord → Option RunStatus
status_of none = none
status_of (some r) = some r.status

-- The status of a run.
unfoldable pub status_at : String → Db → Option RunStatus
unfolding row
status_at j db = status_of (row j db)

-- From one database to the other, one move of the run `j`.
abbrev pub Moved : String → Db → Db → Type 0
Moved j before after = Moves (status_at j before) (status_at j after)
