-- ===== src/Registry/Claim.antt =====
-- registry.py: claiming a run, directly or from a queue, and the two columns that are bound
-- before a run is dispatched.
pub mod Exclusive
use workflow_runtime_core.Base.{
  ℕ, ◌+◌, ◌*◌, String, Bool, true, false, not, ◌&&◌, ◌||◌, Option, none, some, ltb, str_eq,
  if◌then◌else◌,
}
use workflow_runtime_core.Exec.{ok, err, Exec, schema_version_mismatch, ◌>>=◌, ◌>>◌, pure}
use workflow_runtime_core.Json.{Json, str, obj, bool, end, field}
use workflow_runtime_core.Models.{RunRecord, running, is_queued, is_running}
use workflow_runtime_core.Db.{
  Db, Conn, row, always, at_least, require_version, update_run, emit, microseconds,
}
use workflow_runtime_core.Registry.Record.{read_row, truncate}

-- UPDATE … SET status = 'running', updated_at = now()
abbrev pub start : Conn → RunRecord → RunRecord
start conn r = record r { status = running; updated_at = conn.now }

abbrev read_claimed : Option RunRecord → Exec Db (Option RunRecord)
read_claimed claimed db = (ok (read_row db claimed), db)

unfoldable pub claim_row : Conn → String → Option RunRecord → Exec Db (Option RunRecord)
claim_row conn run_id none db = (ok none, db)
claim_row conn run_id (some r) db =
    if is_queued r.status
    then (do
      claimed ← update_run run_id always (start conn)
      emit conn run_id "claimed" none
      read_claimed claimed)
        db
    else (ok none, db)

unfoldable pub claim_run : Conn → String → Exec Db (Option RunRecord)
unfolding claim_row
claim_run conn run_id db = claim_row conn run_id (row run_id db) db

unfoldable pub set_dispatch : Conn → String → String → Exec Db (Unit {0})
set_dispatch conn run_id dispatch_id = do
  require_version 2
  update_run run_id always (λ r. record r { dispatch_id = some dispatch_id; updated_at = conn.now })
  pure tt

unfoldable pub set_input_set : Conn → String → String → Exec Db (Unit {0})
set_input_set conn run_id input_set_id = do
  require_version 2
  update_run run_id always
      (λ r. record r { input_set_id = some input_set_id; updated_at = conn.now })
  pure tt

abbrev pub is_live_lease : Option ℕ → ℕ → Bool
is_live_lease none now = false
is_live_lease (some expires) now = ltb now expires

-- str(row["dispatch_id"]) == str(dispatch_id): NULL reads as the text None.
abbrev pub dispatch_text : Option String → String
dispatch_text none = "None"
dispatch_text (some d) = d

abbrev pub take_lease : Conn → String → ℕ → RunRecord → RunRecord
take_lease conn owner lease_seconds r = record r {
  status = running;
  lease_owner = some owner;
  lease_expires_at = some (conn.now + lease_seconds * microseconds);
  heartbeat_at = some conn.now;
  delivery_count = r.delivery_count + 1;
  updated_at = conn.now;
}

-- The guards of `claim_dispatch`, by the process's own clock.
abbrev pub is_claimable : Conn → String → RunRecord → Bool
is_claimable conn dispatch_id r =
    (is_queued r.status || is_running r.status)
    && str_eq (dispatch_text r.dispatch_id) dispatch_id
    && not (is_live_lease r.lease_expires_at conn.utcnow)

abbrev claimed_detail : String → String → Json
claimed_detail owner dispatch_id =
    obj (field "owner" (str owner) (field "dispatch_id" (str dispatch_id) end))

unfoldable pub claim_dispatched :
    Conn → String → String → String → ℕ → Option RunRecord → Exec Db (Option RunRecord)
claim_dispatched conn run_id dispatch_id owner lease_seconds none db = (ok none, db)
claim_dispatched conn run_id dispatch_id owner lease_seconds (some r) db =
    if not (at_least 2 db.version)
    then (err schema_version_mismatch, db)
    else if is_claimable conn dispatch_id r
    then (do
      claimed ← update_run run_id always (take_lease conn owner lease_seconds)
      emit conn run_id "claimed" (some (claimed_detail owner dispatch_id))
      read_claimed claimed)
        db
    else (ok none, db)

unfoldable pub claim_dispatch : Conn → String → String → String → ℕ → Exec Db (Option RunRecord)
unfolding claim_dispatched
claim_dispatch conn run_id dispatch_id owner lease_seconds db =
    claim_dispatched conn run_id dispatch_id owner lease_seconds (row run_id db) db

abbrev dispatch_failure : String → Json
dispatch_failure message = obj (field "reason" (str message) end)

-- An enqueue that failed after the row was committed: the row stays.
unfoldable pub mark_dispatch_failed : Conn → String → String → Exec Db (Unit {0})
mark_dispatch_failed conn run_id reason = do
  require_version 2
  update_run run_id always (λ r. record r {
    error_json = some (
        field "stage" (str "dispatch") (
          field "error_type" (str "DispatchEnqueueFailed")
            (field "message" (str (truncate 2000 reason)) (field "retryable" (bool true) end))));
    updated_at = conn.now;
  })
  emit conn run_id "dispatch_failed" (some (dispatch_failure (truncate 2000 reason)))
