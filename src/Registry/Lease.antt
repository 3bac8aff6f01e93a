-- ===== src/Registry/Lease.antt =====
-- registry.py: renewing, releasing and recovering the lease of a run, and its progress.
pub mod Takeover
pub mod Acknowledge
use workflow_runtime_core.Base.{
  ℕ, ◌+◌, ◌*◌, String, Bool, true, false, ◌&&◌, Option, none, some, leb, ◌==◌, is_some, is_text,
  if◌then◌else◌,
}
use workflow_runtime_core.Exec.{ok, Exec, ◌>>=◌, ◌>>◌, pure}
use workflow_runtime_core.Json.{Fields}
use workflow_runtime_core.Models.{RunRecord, queued, is_running, is_cancelled}
use workflow_runtime_core.Db.{Db, Conn, always, require_version, update_run, emit, microseconds}

abbrev pub extend_lease : Conn → ℕ → RunRecord → RunRecord
extend_lease conn lease_seconds r = record r {
  lease_expires_at = some (conn.now + lease_seconds * microseconds);
  heartbeat_at = some conn.now;
  updated_at = conn.now;
}

unfoldable pub renew_lease : Conn → String → String → ℕ → Exec Db Bool
renew_lease conn run_id owner lease_seconds = do
  require_version 2
  found ←
      update_run run_id (λ r. is_text r.lease_owner owner && is_running r.status)
        (extend_lease conn lease_seconds)
  pure (is_some found)

abbrev pub drop_lease : Conn → RunRecord → RunRecord
drop_lease conn r = record r { lease_owner = none; lease_expires_at = none; updated_at = conn.now }

abbrev pub release_event : Conn → String → Option RunRecord → Exec Db (Unit {0})
release_event conn run_id none db = (ok tt, db)
release_event conn run_id (some r) db =
    if is_cancelled r.status then emit conn run_id "lease_released" none db else (ok tt, db)

unfoldable pub release_lease : Conn → String → Exec Db (Unit {0})
release_lease conn run_id = do
  require_version 2
  released ← update_run run_id always (drop_lease conn)
  release_event conn run_id released

-- An event if something was found, and whether it was.
abbrev pub emit_if : Conn → String → String → Bool → Exec Db Bool
emit_if conn run_id kind true = do emit conn run_id kind none; pure true
emit_if conn run_id kind false = pure false

unfoldable pub release_cancelled_attempt_lease : Conn → String → ℕ → String → Exec Db Bool
release_cancelled_attempt_lease conn run_id attempt_no owner = do
  require_version 2
  released ←
      update_run run_id
        (λ r. (r.attempt_no == attempt_no) && is_cancelled r.status && is_text r.lease_owner owner)
        (drop_lease conn)
  emit_if conn run_id "lease_released" (is_some released)

abbrev pub is_lapsed : Option ℕ → ℕ → Bool
is_lapsed none now = false
is_lapsed (some expires) now = leb expires now

abbrev pub requeue : Conn → RunRecord → RunRecord
requeue conn r = record r {
  status = queued;
  lease_owner = none;
  lease_expires_at = none;
  updated_at = conn.now;
}

unfoldable pub requeue_expired_lease : Conn → String → Exec Db Bool
requeue_expired_lease conn run_id = do
  require_version 2
  found ←
      update_run run_id (λ r. is_running r.status && is_lapsed r.lease_expires_at conn.now)
        (requeue conn)
  emit_if conn run_id "lease_expired" (is_some found)

unfoldable pub record_progress : Conn → String → Fields → Exec Db (Unit {0})
record_progress conn run_id progress = do
  require_version 2
  update_run run_id always (λ r. record r {
    progress_json = some progress;
    heartbeat_at = some conn.now;
    updated_at = conn.now;
  })
  pure tt
