-- ===== src/Registry/History/Sound.antt =====
-- The invariant of the tables runs and run_events through any sessions of registry.py.
use workflow_runtime_core.Base.{ℕ, String, Option, none, List, [], ◌∷◌}
use workflow_runtime_core.Exec.{Result, ok, err, Exec, settle}
use workflow_runtime_core.Json.{Fields}
use workflow_runtime_core.Db.{Db, Conn, raise_if-keeps}
use workflow_runtime_core.Registry.Retention.{mark_retention_started}
use workflow_runtime_core.Registry.Invariant.{IsSound, emit-IsSound}
use workflow_runtime_core.Registry.Sound.Create.{create_run-IsSound, create_retry-IsSound}
use workflow_runtime_core.Registry.Sound.Claim.{
  claim_run-IsSound, claim_dispatch-IsSound, set_dispatch-IsSound, set_input_set-IsSound,
  mark_dispatch_failed-IsSound,
}
use workflow_runtime_core.Registry.Sound.Lease.{
  renew_lease-IsSound, release_lease-IsSound, release_cancelled_attempt_lease-IsSound,
  requeue_expired_lease-IsSound, record_progress-IsSound,
}
use workflow_runtime_core.Registry.Sound.Outcome.{
  mark_paused-IsSound, mark_completed-IsSound, mark_failed-IsSound, mark_failed_structured-IsSound,
  request_resume-IsSound, cancel_run-IsSound,
}
use workflow_runtime_core.Registry.Sound.Metadata.{
  pin_execution_metadata-IsSound, record_credential_sources-IsSound, record_spend_ceiling-IsSound,
  record_degradations-IsSound,
}
use workflow_runtime_core.Registry.Sound.Retention.{delete_run-IsSound, prune_terminal_runs-IsSound}
use workflow_runtime_core.Registry.History.{
  Request, create, retry, claim, claim_message, dispatch, input_set, dispatch_failed, renew,
  release, release_cancelled, requeue_expired, progress, pause, complete, fail, fail_structured,
  resume, cancel, pin, credential_sources, spend_ceiling, degradations, event, retention_started,
  delete_one, prune, commit, perform, history, migrated,
}
use workflow_runtime_core.Registry.Events.{record_event}

pub migrated-IsSound : (version : ℕ) → IsSound (migrated version)
migrated-IsSound version = record { distinct = tt; leases = tt; parents = tt; events = tt }

settle-IsSound :
    {A : Type 0} (before : Db) (r : Result A) (db : Db)
    → IsSound before
    → IsSound db
    → IsSound (settle before r db).1
settle-IsSound before (ok a) db h k = k
settle-IsSound before (err e) db h k = h

commit-IsSound :
    {A : Type 0} (m : Exec Db A) (db : Db) → IsSound db → IsSound (m db).1 → IsSound (commit m db)
unfolding commit
commit-IsSound m db h k = settle-IsSound db (m db).0 (m db).1 h k

record_event-IsSound :
    (conn : Conn) (k kind : String) (detail : Option Fields) (db : Db)
    → IsSound db
    → IsSound (record_event conn k kind detail db).1
unfolding record_event
record_event-IsSound conn k kind detail db h =
    raise_if-keeps IsSound _ _ _ _ h
      λ a. raise_if-keeps IsSound _ _ _ _ h λ b. emit-IsSound conn k kind _ db h

perform-IsSound :
    (conn : Conn) (request : Request) (db : Db) → IsSound db → IsSound (perform conn request db)
unfolding perform mark_retention_started
perform-IsSound conn (create new) db h = commit-IsSound _ db h (create_run-IsSound conn new db h)
perform-IsSound conn (retry k args) db h =
    commit-IsSound _ db h (create_retry-IsSound conn k args db h)
perform-IsSound conn (claim k) db h = commit-IsSound _ db h (claim_run-IsSound conn k db h)
perform-IsSound conn (claim_message k d owner s) db h =
    commit-IsSound _ db h (claim_dispatch-IsSound conn k d owner s db h)
perform-IsSound conn (dispatch k d) db h =
    commit-IsSound _ db h (set_dispatch-IsSound conn k d db h)
perform-IsSound conn (input_set k i) db h =
    commit-IsSound _ db h (set_input_set-IsSound conn k i db h)
perform-IsSound conn (dispatch_failed k reason) db h =
    commit-IsSound _ db h (mark_dispatch_failed-IsSound conn k reason db h)
perform-IsSound conn (renew k owner s) db h =
    commit-IsSound _ db h (renew_lease-IsSound conn k owner s db h)
perform-IsSound conn (release k) db h = commit-IsSound _ db h (release_lease-IsSound conn k db h)
perform-IsSound conn (release_cancelled k n owner) db h =
    commit-IsSound _ db h (release_cancelled_attempt_lease-IsSound conn k n owner db h)
perform-IsSound conn (requeue_expired k) db h =
    commit-IsSound _ db h (requeue_expired_lease-IsSound conn k db h)
perform-IsSound conn (progress k p) db h =
    commit-IsSound _ db h (record_progress-IsSound conn k p db h)
perform-IsSound conn (pause k payload) db h =
    commit-IsSound _ db h (mark_paused-IsSound conn k payload db h)
perform-IsSound conn (complete k artifacts published) db h =
    commit-IsSound _ db h (mark_completed-IsSound conn k artifacts published db h)
perform-IsSound conn (fail k message) db h =
    commit-IsSound _ db h (mark_failed-IsSound conn k message db h)
perform-IsSound conn (fail_structured k failure) db h =
    commit-IsSound _ db h (mark_failed_structured-IsSound conn k failure db h)
perform-IsSound conn (resume k payload) db h =
    commit-IsSound _ db h (request_resume-IsSound conn k payload db h)
perform-IsSound conn (cancel k) db h = commit-IsSound _ db h (cancel_run-IsSound conn k db h)
perform-IsSound conn (pin k metadata) db h =
    commit-IsSound _ db h (pin_execution_metadata-IsSound conn k metadata db h)
perform-IsSound conn (credential_sources k sources n) db h =
    commit-IsSound _ db h (record_credential_sources-IsSound conn k sources n db h)
perform-IsSound conn (spend_ceiling k minutes) db h =
    commit-IsSound _ db h (record_spend_ceiling-IsSound conn k minutes db h)
perform-IsSound conn (degradations k entries n) db h =
    commit-IsSound _ db h (record_degradations-IsSound conn k entries n db h)
perform-IsSound conn (event k kind detail) db h =
    commit-IsSound _ db h (record_event-IsSound conn k kind detail db h)
perform-IsSound conn (retention_started k) db h =
    commit-IsSound _ db h (emit-IsSound conn k "retention_started" none db h)
perform-IsSound conn (delete_one k days) db h =
    commit-IsSound _ db h (delete_run-IsSound conn k days db h)
perform-IsSound conn (prune days) db h =
    commit-IsSound _ db h (prune_terminal_runs-IsSound conn days db h)

-- After any sessions on a freshly migrated database, whatever they ask and in whatever order:
-- run ids and idempotency keys are unique, no two live runs share a workspace, every `retry_of`
-- and every event names a run that is there, and a lease is held only by a run that is running or
-- cancelled, with its owner and its expiry set together.
pub history-IsSound :
    (version : ℕ) (sessions : List (Conn × Request)) → IsSound (history sessions (migrated version))
unfolding history
history-IsSound version sessions = go sessions (migrated version) (migrated-IsSound version)
  where
    go : (sessions : List (Conn × Request)) (db : Db) → IsSound db → IsSound (history sessions db)
    go [] db h = h
    go ((conn, request) ∷ rest) db h =
        go rest (perform conn request db) (perform-IsSound conn request db h)
