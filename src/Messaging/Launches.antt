-- ===== src/Messaging/Launches.antt =====
-- messaging/launches.py: the dispatcher's record of asking a launcher to start a run.
pub mod Claimed
use workflow_runtime_core.Base.{
  ℕ, ◌+◌, ◌*◌, String, Bool, true, false, not, ◌&&◌, Option, none, some, List, leb, str_eq, is_text,
  or_else, map, take, select, find?, update, any, sort_by,
}
use workflow_runtime_core.Exec.{ok, Exec, ◌>>◌}
use workflow_runtime_core.Db.{Db, Conn, LaunchRecord, LaunchState, microseconds}
use workflow_runtime_core.Registry.Record.{truncate}
use workflow_runtime_core.Messaging.Backoff.{next_delay_seconds}
use workflow_runtime_core.Messaging.Outbox.{require_messaging}
use workflow_runtime_core.Messaging.Outbox.Upkeep.{has_lapsed}

abbrev pub is_launching : LaunchState → Bool
is_launching LaunchState.launching = true
is_launching _ = false

abbrev pub is_launched : LaunchState → Bool
is_launched LaunchState.launched = true
is_launched _ = false

-- state IN ('pending', 'failed')
abbrev pub is_open : LaunchState → Bool
is_open LaunchState.pending = true
is_open LaunchState.failed = true
is_open _ = false

abbrev pub launches_run : String → LaunchRecord → Bool
launches_run run_id l = str_eq l.run_id run_id

-- SELECT * FROM run_launches WHERE run_id = %s, the primary key.
unfoldable pub launch_row : String → Db → Option LaunchRecord
launch_row run_id db = find? (launches_run run_id) db.launches

unfoldable pub get_launch : String → Exec Db (Option LaunchRecord)
unfolding launch_row
get_launch run_id = do require_messaging; λ db. (ok (launch_row run_id db), db)

abbrev pub is_due_launch : Conn → LaunchRecord → Bool
is_due_launch conn l = is_open l.state && leb l.next_attempt_at conn.now

-- The rows of `WITH due AS (… FOR UPDATE SKIP LOCKED LIMIT n)`; `locked` are the rows that another
-- session holds.
unfoldable pub due_launches :
    Conn → (LaunchRecord → Bool) → ℕ → List LaunchRecord → List LaunchRecord
due_launches conn locked limit rows = take limit (
    sort_by (λ l m. leb l.next_attempt_at m.next_attempt_at)
      (select (λ l. is_due_launch conn l && not (locked l)) rows))

-- l.run_id = due.run_id
abbrev pub is_chosen : List LaunchRecord → LaunchRecord → Bool
is_chosen chosen l = any (launches_run l.run_id) chosen

abbrev pub launch_claimed : Conn → String → ℕ → LaunchRecord → LaunchRecord
launch_claimed conn owner lease_seconds l = record l {
  state = LaunchState.launching;
  attempts = l.attempts + 1;
  lease_owner = some owner;
  lease_expires_at = some (conn.now + lease_seconds * microseconds);
  updated_at = conn.now;
}

unfoldable pub claim_due :
    Conn → (LaunchRecord → Bool) → String → ℕ → ℕ → Exec Db (List LaunchRecord)
claim_due conn locked owner lease_seconds limit = do
  require_messaging
  λ db.
      let chosen = due_launches conn locked limit db.launches in
      let claimed = launch_claimed conn owner lease_seconds in
      (
        ok (map claimed (select (is_chosen chosen) db.launches)),
        record db { launches = update (is_chosen chosen) claimed db.launches },
      )

-- WHERE run_id = %s AND lease_owner = %s AND state = 'launching'
abbrev pub is_held_launch : String → String → LaunchRecord → Bool
is_held_launch run_id owner l =
    launches_run run_id l && is_text l.lease_owner owner && is_launching l.state

-- UPDATE run_launches SET f WHERE p RETURNING run_id: whether a row was hit.
abbrev pub update_launches : (LaunchRecord → Bool) → (LaunchRecord → LaunchRecord) → Exec Db Bool
update_launches p f db = (ok (any p db.launches), record db { launches = update p f db.launches })

abbrev pub launch : Conn → String → LaunchRecord → LaunchRecord
launch conn execution_ref l = record l {
  state = LaunchState.launched;
  execution_ref = some execution_ref;
  lease_owner = none;
  lease_expires_at = none;
  last_error = none;
  updated_at = conn.now;
}

unfoldable pub record_launched : Conn → String → String → String → Exec Db Bool
record_launched conn run_id owner execution_ref = do
  require_messaging
  update_launches (is_held_launch run_id owner) (launch conn execution_ref)

-- `current.attempts if current else 1`, where the caller gives no number.
abbrev pub attempts_of : Option ℕ → Option LaunchRecord → ℕ
attempts_of (some n) current = n
attempts_of none none = 1
attempts_of none (some l) = l.attempts

abbrev pub retry_launch : Conn → String → ℕ → LaunchRecord → LaunchRecord
retry_launch conn error delay l = record l {
  state = LaunchState.failed;
  last_error = some error;
  next_attempt_at = conn.now + delay;
  lease_owner = none;
  lease_expires_at = none;
  updated_at = conn.now;
}

unfoldable pub record_failed : Conn → String → String → String → Option ℕ → Exec Db Bool
unfolding launch_row
record_failed conn run_id owner error attempts = do
  require_messaging
  λ db.
      let delay = next_delay_seconds conn db.drawn (attempts_of attempts (launch_row run_id db)) in
      update_launches (is_held_launch run_id owner) (retry_launch conn (truncate 2000 error) delay)
        (record db { drawn = db.drawn + 1 })

abbrev pub is_stranded_launch : Conn → LaunchRecord → Bool
is_stranded_launch conn l = is_launching l.state && has_lapsed l.lease_expires_at conn.now

abbrev pub reopen_launch : Conn → LaunchRecord → LaunchRecord
reopen_launch conn l = record l {
  state = LaunchState.pending;
  lease_owner = none;
  lease_expires_at = none;
  last_error = some (or_else l.last_error "dispatcher lease expired");
  updated_at = conn.now;
}

abbrev lease_order : LaunchRecord → LaunchRecord → Bool
lease_order l m = leb (or_else l.lease_expires_at 0) (or_else m.lease_expires_at 0)

unfoldable pub stranded_launches :
    Conn → (LaunchRecord → Bool) → ℕ → List LaunchRecord → List LaunchRecord
stranded_launches conn locked limit rows =
    take limit
      (sort_by lease_order (select (λ l. is_stranded_launch conn l && not (locked l)) rows))

unfoldable pub reconcile_stale : Conn → (LaunchRecord → Bool) → ℕ → Exec Db (List String)
reconcile_stale conn locked limit = do
  require_messaging
  λ db.
      let chosen = stranded_launches conn locked limit db.launches in
      (
        ok (map (λ l. l.run_id) (select (is_chosen chosen) db.launches)),
        record db { launches = update (is_chosen chosen) (reopen_launch conn) db.launches },
      )

-- state IN ('launching', 'pending', 'failed')
abbrev pub is_adoptable : String → LaunchRecord → Bool
is_adoptable run_id l = launches_run run_id l && not (is_launched l.state)

abbrev pub adopt : Conn → String → LaunchRecord → LaunchRecord
adopt conn execution_ref l = record l {
  state = LaunchState.launched;
  execution_ref = some execution_ref;
  lease_owner = none;
  lease_expires_at = none;
  updated_at = conn.now;
}

unfoldable pub adopt_live_execution : Conn → String → String → Exec Db Bool
adopt_live_execution conn run_id execution_ref = do
  require_messaging
  update_launches (is_adoptable run_id) (adopt conn execution_ref)
