-- ===== src/Registry/Outcome.antt =====
-- registry.py: the terminal transitions, the pause, the resume and the cancellation of a run.
pub mod Cancel
pub mod Settle
pub mod Resume
use workflow_runtime_core.Base.{
  String, Bool, false, not, ◌&&◌, Option, none, some, any, if◌then◌else◌,
}
use workflow_runtime_core.Exec.{
  ok, err, Exec, registry_error, schema_version_mismatch, unique_violation, raise_if, ◌>>=◌, ◌>>◌,
}
use workflow_runtime_core.Json
use workflow_runtime_core.Json.{Json, str, obj, Fields, end, field}
use workflow_runtime_core.Models.{
  RunRecord, queued, paused, completed, failed, cancelled, is_paused, is_terminal,
}
use workflow_runtime_core.Db.{
  Db, Conn, row, always, at_least, require_version, update_run, emit, holds_workspace,
}
use workflow_runtime_core.Registry.Record.{from_row, truncate}

-- A row that settles gives up its lease, where the schema has leases.
abbrev pub settled : Bool → RunRecord → RunRecord
settled data_plane r =
    if data_plane then record r { lease_owner = none; lease_expires_at = none } else r

-- A terminal run that is paused enters the index of live workspaces again.
abbrev pub revival_clash : Option RunRecord → Db → Bool
revival_clash none db = false
revival_clash (some r) db = is_terminal r.status && any (holds_workspace r.workspace_id) db.runs

unfoldable pub check_revival : String → Exec Db (Unit {0})
unfolding row
check_revival run_id db = raise_if (revival_clash (row run_id db) db) unique_violation db

unfoldable pub mark_paused : Conn → String → Json → Exec Db (Unit {0})
mark_paused conn run_id interrupt_payload db =
    (do
      check_revival run_id
      update_run run_id always (λ r. settled (at_least 2 db.version) (record r {
        status = paused;
        interrupt_payload = some interrupt_payload;
        updated_at = conn.now;
      }))
      emit conn run_id "paused" none)
      db

abbrev pub completed_row : Conn → Option Fields → Bool → Bool → RunRecord → RunRecord
completed_row conn artifacts artifacts_published data_plane r = settled data_plane (record r {
  status = completed;
  artifacts_json = artifacts;
  artifacts_published_at = if artifacts_published then some conn.now else r.artifacts_published_at;
  updated_at = conn.now;
})

unfoldable pub mark_completed : Conn → String → Option Fields → Bool → Exec Db (Unit {0})
mark_completed conn run_id artifacts artifacts_published db =
    (do
      raise_if (artifacts_published && not (at_least 2 db.version)) schema_version_mismatch
      update_run run_id always
          (completed_row conn artifacts artifacts_published (at_least 2 db.version))
      emit conn run_id "completed" none)
      db

abbrev error_detail : String → Json
error_detail message = obj (field "error" (str message) end)

unfoldable pub mark_failed : Conn → String → String → Exec Db (Unit {0})
mark_failed conn run_id message db =
    (do
      update_run run_id always (λ r. settled (at_least 2 db.version) (record r {
        status = failed;
        error = some (truncate 8000 message);
        updated_at = conn.now;
      }))
      emit conn run_id "failed" (some (error_detail (truncate 2000 message))))
      db

-- str(failure.get("message", ""))
abbrev pub message_text : Conn → Option Json → String
message_text conn none = ""
message_text conn (some (str s)) = s
message_text conn (some v) = conn.text_of v

unfoldable pub mark_failed_structured : Conn → String → Fields → Exec Db (Unit {0})
mark_failed_structured conn run_id failure = do
  require_version 2
  update_run run_id always (λ r. record r {
    status = failed;
    error = some (truncate 8000 (message_text conn (Json.get "message" failure)));
    error_json = some failure;
    lease_owner = none;
    lease_expires_at = none;
    updated_at = conn.now;
  })
  emit conn run_id "failed" (some (obj failure))

abbrev pub read_updated : Option RunRecord → Exec Db RunRecord
read_updated none db = (err registry_error, db)
read_updated (some r) db = (ok (from_row db r), db)

-- RESUME_KEY
abbrev pub resume_key : String
resume_key = "_resume"

abbrev pub resumed : Conn → Json → RunRecord → RunRecord
resumed conn payload r = record r {
  status = queued;
  config_json = Json.put resume_key payload r.config_json;
  interrupt_payload = none;
  updated_at = conn.now;
}

unfoldable pub resume_row : Conn → String → Json → Option RunRecord → Exec Db RunRecord
resume_row conn run_id payload none db = (err registry_error, db)
resume_row conn run_id payload (some r) db =
    if is_paused r.status
    then (do
      updated ← update_run run_id always (resumed conn payload)
      emit conn run_id "resume_requested" none
      read_updated updated)
        db
    else (err registry_error, db)

unfoldable pub request_resume : Conn → String → Json → Exec Db RunRecord
unfolding resume_row
request_resume conn run_id payload db = resume_row conn run_id payload (row run_id db) db

abbrev pub cancel : Conn → RunRecord → RunRecord
cancel conn r = record r { status = cancelled; updated_at = conn.now }

unfoldable pub cancel_row : Conn → String → Option RunRecord → Exec Db RunRecord
cancel_row conn run_id none db = (err registry_error, db)
cancel_row conn run_id (some r) db =
    if is_terminal r.status
    then (err registry_error, db)
    else (do
      updated ← update_run run_id always (cancel conn)
      emit conn run_id "cancelled" none
      read_updated updated)
        db

unfoldable pub cancel_run : Conn → String → Exec Db RunRecord
unfolding cancel_row
cancel_run conn run_id db = cancel_row conn run_id (row run_id db) db
