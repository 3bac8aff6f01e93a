-- ===== src/Registry/Outcome/Settle.antt =====
-- `mark_completed`, and a cancelled run.
use workflow_runtime_core.Base.{String, ◌≡◌, refl, ap, Bool, true, Option, none, some, arith}
use workflow_runtime_core.Exec.{ok, ◌>>=◌}
use workflow_runtime_core.Json.{Fields}
use workflow_runtime_core.Models.{RunRecord, completed}
use workflow_runtime_core.Db.{
  Db, Conn, row, always, at_least, changed, row-changed, result-updated, emit-updated,
}
use workflow_runtime_core.Registry.Outcome.{completed_row, mark_completed, cancel, cancel_run}
use workflow_runtime_core.Registry.Lifecycle.{status_of}
use workflow_runtime_core.Registry.Outcome.Cancel.{Cancelled, cancel_row-Cancelled}

module _ (conn : Conn) (k : String) (artifacts : Option Fields) (published : Bool) where
  -- On a schema with the data plane, `mark_completed` of a run that is there succeeds from every
  -- status, and leaves exactly the completed row: its artifacts stored and no lease.
  mark_completed_any :
      (db : Db) (r : RunRecord)
      → row k db ≡ some r
      → at_least 2 db.version ≡ true
      → (db' : Db) × (mark_completed conn k artifacts published db ≡ (ok tt, db'))
        × (row k db' ≡ some (completed_row conn artifacts published true r))
  unfolding mark_completed ◌>>=◌
  mark_completed_any db r found live = (
    changed conn k (completed_row conn artifacts published true) "completed" none db,
    rw live (
        ground (
          arith,
          result-updated conn k always (completed_row conn artifacts published true) (λ s. refl) db
              r found,
          emit-updated conn k always (completed_row conn artifacts published true) (λ s. refl) db r
              found "completed" none,
        )),
    row-changed conn k (completed_row conn artifacts published true) "completed" none db r
        (λ s. refl) found,
  )

  -- A cancellation does not stop `mark_completed`: in the database that a `cancel_run` leaves
  -- when it returns, on a schema with the data plane, it succeeds and makes the cancelled run
  -- a completed one.
  pub cancel-mark_completed :
      (conn' : Conn) (db db' : Db) (c : RunRecord)
      → at_least 2 db.version ≡ true
      → cancel_run conn' k db ≡ (ok c, db')
      → (db'' : Db) × (mark_completed conn k artifacts published db' ≡ (ok tt, db''))
        × (status_of (row k db'') ≡ some completed)
  unfolding cancel_run Cancelled
  cancel-mark_completed conn' db db' c live h =
      let (r, (found, same)) = cancel_row-Cancelled conn' k db db' c (row k db) refl h in
      let (db'', done, after) = mark_completed_any db' (cancel conn' r) found (rw same live) in
      (db'', done, ap status_of after)
