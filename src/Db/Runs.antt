-- ===== src/Db/Runs.antt =====
-- Statements on the tables runs and run_events.
use workflow_runtime_core.Base.{
  ℕ, ◌+◌, String, Bool, true, false, not, ◌&&◌, Option, none, some, List, [], ◌∷◌, ◌++◌, str_eq,
  leb, is_some, is_text, find?, update, any, if◌then◌else◌,
}
use workflow_runtime_core.Exec.{
  ok, err, Exec, foreign_key_violation, schema_version_mismatch, raise_if,
}
use workflow_runtime_core.Json.{Json}
use workflow_runtime_core.Models.{RunRecord, is_terminal}
use workflow_runtime_core.Db.Rows.{Db, Conn}

abbrev pub has_id : String → RunRecord → Bool
has_id run_id r = str_eq r.run_id run_id

-- SELECT * FROM runs WHERE run_id = %s
unfoldable pub row : String → Db → Option RunRecord
row run_id db = find? (has_id run_id) db.runs

abbrev pub matched :
    (RunRecord → Bool) → (RunRecord → RunRecord) → Option RunRecord → Option RunRecord
matched p f none = none
matched p f (some r) = if p r then some (f r) else none

-- UPDATE runs SET f WHERE run_id = %s AND p RETURNING *: the primary key makes it one row at most.
unfoldable pub update_run :
    String → (RunRecord → Bool) → (RunRecord → RunRecord) → Exec Db (Option RunRecord)
unfolding row
update_run run_id p f db = (
  ok (matched p f (row run_id db)),
  record db { runs = update (λ r. has_id run_id r && p r) f db.runs },
)

abbrev pub always : RunRecord → Bool
always r = true

-- `_data_plane_live`, and a test for the columns or tables of a later version.
abbrev pub at_least : ℕ → Option ℕ → Bool
at_least n none = false
at_least n (some live) = leb n live

-- A statement that names a column of version `n` fails before that migration: `UndefinedColumn`,
-- which the callers turn into `SchemaVersionMismatch`.
abbrev pub require_version : ℕ → Exec Db (Unit {0})
require_version n db = raise_if (not (at_least n db.version)) schema_version_mismatch db

abbrev pub add_event : Conn → String → String → Option Json → Db → Db
add_event conn run_id kind detail db = record db {
  events =
      db.events
      ++ record {
        event_id = db.next_event_id;
        run_id = run_id;
        kind = kind;
        detail = detail;
        created_at = conn.now;
      }
        ∷ [];
  next_event_id = db.next_event_id + 1;
}

-- `_emit`: run_events references runs, so an event of a run that is not there is refused.
unfoldable pub emit : Conn → String → String → Option Json → Exec Db (Unit {0})
unfolding row
emit conn run_id kind detail db =
    if is_some (row run_id db)
    then (ok tt, add_event conn run_id kind detail db)
    else (err foreign_key_violation, db)

-- Whether a row with the nullable value `b`, indexed if `indexed`, conflicts with the value `a`:
-- two NULLs do not.
abbrev pub shares : Option String → Bool → Option String → Bool
shares none indexed b = false
shares (some a) indexed b = indexed && is_text b a

-- A row in the partial index runs_active_workspace_uniq, under the workspace `w`.
abbrev pub holds_workspace : Option String → RunRecord → Bool
holds_workspace w r = shares w (not (is_terminal r.status)) r.workspace_id

-- A row in the partial index runs_idempotency_key_uniq, under the key `k`.
abbrev pub holds_key : Option String → RunRecord → Bool
holds_key k r = shares k true r.idempotency_key

-- The foreign key of `retry_of`.
abbrev pub dangling : Option String → List RunRecord → Bool
dangling none runs = false
dangling (some parent) runs = not (any (has_id parent) runs)

-- INSERT INTO runs ... RETURNING *. The constraint that a conflict is reported under is the
-- first one that fails; the result says whether that is the index on live workspaces.
pub data Insertion : Type 0 where
  inserted : RunRecord → Insertion
  duplicate_id duplicate_key active_workspace no_parent : Insertion

unfoldable pub insert_run : RunRecord → Db → Insertion × Db
insert_run r db =
    if any (has_id r.run_id) db.runs
    then (duplicate_id, db)
    else if any (holds_key r.idempotency_key) db.runs
    then (duplicate_key, db)
    else if not (is_terminal r.status) && any (holds_workspace r.workspace_id) db.runs
    then (active_workspace, db)
    else if dangling r.retry_of db.runs
    then (no_parent, db)
    else (inserted r, record db { runs = db.runs ++ r ∷ [] })
