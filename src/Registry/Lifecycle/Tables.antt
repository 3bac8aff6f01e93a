-- ===== src/Registry/Lifecycle/Tables.antt =====
-- The operations that add and delete runs.
use workflow_runtime_core.Base.{
  ℕ, String, refl, inl, inr, not, ◌&&◌, Option, none, some, arith, Bool-cases,
}
use workflow_runtime_core.Exec.{bind-keeps}
use workflow_runtime_core.Models.{RunRecord, is_failed}
use workflow_runtime_core.Db.{
  Db, Conn, at_least, require_version-keeps, Insertion, inserted, no_parent,
}
use workflow_runtime_core.Registry.Record.{get_run}
use workflow_runtime_core.Registry.Create.{
  NewRun, existing_run, lineage_requested, after_conflict, after_insert, insert_new,
  create_run_found, create_run,
}
use workflow_runtime_core.Registry.Retry.{
  RetryArgs, inherit_execution_snapshot, mint_attempt, retry_workspace, retry_parent, create_retry,
}
use workflow_runtime_core.Registry.Retention.{is_stale, delete_run, prune_terminal_runs}
use workflow_runtime_core.Registry.Invariant.{Distinct}
use workflow_runtime_core.Registry.Lifecycle.{stays, Moved}
use workflow_runtime_core.Registry.Lifecycle.Rows.{
  emit-Moved, same-Moved, insert_run-Moved, delete_runs-Moved,
}

module _ (j : String) (before : Db) where
  after_conflict-Moved :
      (c : Insertion) (o : Option RunRecord) (db : Db)
      → Moved j before db
      → Moved j before (after_conflict c o db).1
  after_conflict-Moved c (some r) db h = h
  after_conflict-Moved (inserted r) none db h = h
  after_conflict-Moved _ none db h = h

  after_insert-Moved :
      (conn : Conn) (new : NewRun) (c : Insertion) (db : Db)
      → Moved j before db
      → Moved j before (after_insert conn new c db).1
  unfolding after_insert
  after_insert-Moved conn new (inserted r) db h =
      let t = emit-Moved j before conn r.run_id "created" _ db h in
      bind-keeps (Moved j before) _ _ _ t (λ a done. t)
  after_insert-Moved conn new no_parent db h = h
  after_insert-Moved conn new c db h =
      after_conflict-Moved c (existing_run new.idempotency_key db) db h

  inherit-Moved :
      (conn : Conn) (parent : RunRecord) (attempt_id : String) (db : Db)
      → Moved j before db
      → Moved j before (inherit_execution_snapshot conn parent attempt_id db).1
  unfolding inherit_execution_snapshot
  inherit-Moved conn parent attempt_id db h =
      elim (Bool-cases parent.execution_metadata_column_present) [
        | inl e ↦
            let s = same-Moved j before attempt_id _ _ db (λ r. refl) (λ r. refl) h in
            rw e (bind-keeps (Moved j before) _ _ _ s (λ a done. s))
        | inr e ↦ rw e h
      ]

module _ (j : String) (conn : Conn) where
  insert_new-Moved : (new : NewRun) (db : Db) → Moved j db (insert_new conn new db).1
  unfolding insert_new
  insert_new-Moved new db =
      after_insert-Moved j db conn new _ _ (insert_run-Moved j db _ _ refl refl)

  create_run_found-Moved :
      (new : NewRun) (o : Option RunRecord) (db : Db)
      → Moved j db (create_run_found conn new o db).1
  unfolding create_run_found
  create_run_found-Moved new (some r) db = stays _
  create_run_found-Moved new none db =
      elim (Bool-cases (lineage_requested new && not (at_least 2 db.version))) [
        | inl e ↦ rw e (stays _)
        | inr e ↦ rw e (insert_new-Moved new db)
      ]

  pub create_run-Moved : (new : NewRun) (db : Db) → Moved j db (create_run conn new db).1
  unfolding create_run
  create_run-Moved new db = create_run_found-Moved new (existing_run new.idempotency_key db) db

  mint_attempt-Moved :
      (parent : RunRecord) (workspace : String) (args : RetryArgs) (db : Db)
      → Moved j db (mint_attempt conn parent workspace args db).1
  unfolding mint_attempt
  mint_attempt-Moved parent workspace args db =
      let s = create_run-Moved _ db in
      bind-keeps (Moved j db) _ _ _ s (λ attempt created.
        let t = inherit-Moved j db conn parent attempt.run_id _ s in
        bind-keeps (Moved j db) _ _ _ t (λ inherited done.
          let u = emit-Moved j db conn parent.run_id "retried" _ _ t in
          bind-keeps (Moved j db) _ _ _ u (λ b done'. u)))

  retry_workspace-Moved :
      (parent : RunRecord) (o : Option String) (args : RetryArgs) (db : Db)
      → Moved j db (retry_workspace conn parent o args db).1
  unfolding retry_workspace
  retry_workspace-Moved parent none args db = stays _
  retry_workspace-Moved parent (some w) args db = mint_attempt-Moved parent w args db

  retry_parent-Moved :
      (o : Option RunRecord) (args : RetryArgs) (db : Db)
      → Moved j db (retry_parent conn o args db).1
  unfolding retry_parent
  retry_parent-Moved none args db = stays _
  retry_parent-Moved (some parent) args db = elim (Bool-cases (is_failed parent.status)) [
    | inl e ↦ rw e (retry_workspace-Moved parent parent.workspace_id args db)
    | inr e ↦ rw e (stays _)
  ]

  pub create_retry-Moved :
      (k : String) (args : RetryArgs) (db : Db) → Moved j db (create_retry conn k args db).1
  unfolding create_retry
  create_retry-Moved k args db = retry_parent-Moved (get_run k db) args db

  pub delete_run-Moved :
      (k : String) (days : ℕ) (db : Db)
      → Distinct db.runs
      → Moved j db (delete_run conn k days db).1
  unfolding delete_run is_stale
  delete_run-Moved k days db distinct =
      require_version-keeps (Moved j db) _ _ _ (stays _)
        λ v. delete_runs-Moved j _ db distinct (λ r e. ground (arith, e))

  pub prune_terminal_runs-Moved :
      (days : ℕ) (db : Db) → Distinct db.runs → Moved j db (prune_terminal_runs conn days db).1
  unfolding prune_terminal_runs is_stale
  prune_terminal_runs-Moved days db distinct =
      delete_runs-Moved j _ db distinct (λ r e. ground (arith, e))
