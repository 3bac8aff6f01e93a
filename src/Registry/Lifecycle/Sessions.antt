-- ===== src/Registry/Lifecycle/Sessions.antt =====
-- Every session of registry.py makes at most one move of every run.
use workflow_runtime_core.Base.{ℕ, String, List}
use workflow_runtime_core.Exec.{Result, ok, err, Exec, settle}
use workflow_runtime_core.Db.{Db, Conn}
use workflow_runtime_core.Registry.History.{
  Request, create, retry, claim, claim_message, dispatch, input_set, dispatch_failed, renew,
  release, release_cancelled, requeue_expired, progress, pause, complete, fail, fail_structured,
  resume, cancel, pin, credential_sources, spend_ceiling, degradations, event, retention_started,
  delete_one, prune, commit, perform, history, migrated,
}
use workflow_runtime_core.Registry.History.Sound.{history-IsSound}
use workflow_runtime_core.Registry.Invariant.{Distinct}
use workflow_runtime_core.Registry.Lifecycle.{stays, Moved}
use workflow_runtime_core.Registry.Lifecycle.Claims.{
  claim_run-Moved, claim_dispatch-Moved, requeue_expired_lease-Moved,
}
use workflow_runtime_core.Registry.Lifecycle.Outcomes.{
  mark_paused-Moved, mark_completed-Moved, mark_failed-Moved, mark_failed_structured-Moved,
  request_resume-Moved, cancel_run-Moved,
}
use workflow_runtime_core.Registry.Lifecycle.Details.{
  set_dispatch-Moved, set_input_set-Moved, mark_dispatch_failed-Moved, renew_lease-Moved,
  release_lease-Moved, release_cancelled_attempt_lease-Moved, record_progress-Moved,
  pin_execution_metadata-Moved, record_credential_sources-Moved, record_spend_ceiling-Moved,
  record_degradations-Moved, record_event-Moved, mark_retention_started-Moved,
}
use workflow_runtime_core.Registry.Lifecycle.Tables.{
  create_run-Moved, create_retry-Moved, delete_run-Moved, prune_terminal_runs-Moved,
}

settle-Moved :
    {A : Type 0} (j : String) (before : Db) (r : Result A) (db : Db)
    → Moved j before db
    → Moved j before (settle before r db).1
settle-Moved j before (ok a) db h = h
settle-Moved j before (err e) db h = stays _

commit-Moved :
    {A : Type 0} (j : String) (m : Exec Db A) (db : Db)
    → Moved j db (m db).1
    → Moved j db (commit m db)
unfolding commit
commit-Moved j m db h = settle-Moved j db (m db).0 (m db).1 h

perform-Moved :
    (j : String) (conn : Conn) (request : Request) (db : Db)
    → Distinct db.runs
    → Moved j db (perform conn request db)
unfolding perform
perform-Moved j conn (create new) db distinct = commit-Moved j _ db (create_run-Moved j conn new db)
perform-Moved j conn (retry k args) db distinct =
    commit-Moved j _ db (create_retry-Moved j conn k args db)
perform-Moved j conn (claim k) db distinct = commit-Moved j _ db (claim_run-Moved j conn k db)
perform-Moved j conn (claim_message k d owner s) db distinct =
    commit-Moved j _ db (claim_dispatch-Moved j conn k d owner s db)
perform-Moved j conn (dispatch k d) db distinct =
    commit-Moved j _ db (set_dispatch-Moved j conn k d db)
perform-Moved j conn (input_set k i) db distinct =
    commit-Moved j _ db (set_input_set-Moved j conn k i db)
perform-Moved j conn (dispatch_failed k reason) db distinct =
    commit-Moved j _ db (mark_dispatch_failed-Moved j conn k reason db)
perform-Moved j conn (renew k owner s) db distinct =
    commit-Moved j _ db (renew_lease-Moved j conn k owner s db)
perform-Moved j conn (release k) db distinct = commit-Moved j _ db (release_lease-Moved j conn k db)
perform-Moved j conn (release_cancelled k n owner) db distinct =
    commit-Moved j _ db (release_cancelled_attempt_lease-Moved j conn k n owner db)
perform-Moved j conn (requeue_expired k) db distinct =
    commit-Moved j _ db (requeue_expired_lease-Moved j conn k db)
perform-Moved j conn (progress k p) db distinct =
    commit-Moved j _ db (record_progress-Moved j conn k p db)
perform-Moved j conn (pause k payload) db distinct =
    commit-Moved j _ db (mark_paused-Moved j conn k payload db)
perform-Moved j conn (complete k artifacts published) db distinct =
    commit-Moved j _ db (mark_completed-Moved j conn k artifacts published db)
perform-Moved j conn (fail k message) db distinct =
    commit-Moved j _ db (mark_failed-Moved j conn k message db)
perform-Moved j conn (fail_structured k failure) db distinct =
    commit-Moved j _ db (mark_failed_structured-Moved j conn k failure db)
perform-Moved j conn (resume k payload) db distinct =
    commit-Moved j _ db (request_resume-Moved j conn k payload db)
perform-Moved j conn (cancel k) db distinct = commit-Moved j _ db (cancel_run-Moved j conn k db)
perform-Moved j conn (pin k metadata) db distinct =
    commit-Moved j _ db (pin_execution_metadata-Moved j conn k metadata db)
perform-Moved j conn (credential_sources k sources n) db distinct =
    commit-Moved j _ db (record_credential_sources-Moved j conn k sources n db)
perform-Moved j conn (spend_ceiling k minutes) db distinct =
    commit-Moved j _ db (record_spend_ceiling-Moved j conn k minutes db)
perform-Moved j conn (degradations k entries n) db distinct =
    commit-Moved j _ db (record_degradations-Moved j conn k entries n db)
perform-Moved j conn (event k kind detail) db distinct =
    commit-Moved j _ db (record_event-Moved j conn k kind detail db)
perform-Moved j conn (retention_started k) db distinct =
    commit-Moved j _ db (mark_retention_started-Moved j conn k db)
perform-Moved j conn (delete_one k days) db distinct =
    commit-Moved j _ db (delete_run-Moved j conn k days db distinct)
perform-Moved j conn (prune days) db distinct =
    commit-Moved j _ db (prune_terminal_runs-Moved j conn days db distinct)

-- After any sessions on a freshly migrated database, whatever the next session asks, each run
-- makes at most one move, and it is one of `Moves`: it is made as queued; claimed from queued, or
-- again from running; requeued from running; resumed from paused; cancelled only from a status
-- that is not terminal; paused, completed or failed from any status; deleted only when terminal.
pub history-Moved :
    (version : ℕ) (sessions : List (Conn × Request)) (conn : Conn) (request : Request) (j : String)
    → Moved j
        (history sessions (migrated version))
        (perform conn request (history sessions (migrated version)))
history-Moved version sessions conn request j =
    let sound = history-IsSound version sessions in
    perform-Moved j conn request (history sessions (migrated version)) sound.distinct
