-- ===== src/Registry/Sound/Create.antt =====
-- `create_run` and `create_retry`.
use workflow_runtime_core.Base.{String, inl, inr, not, ◌&&◌, Option, none, some, arith, Bool-cases}
use workflow_runtime_core.Exec.{bind-keeps}
use workflow_runtime_core.Models.{RunRecord, is_failed}
use workflow_runtime_core.Db.{Db, Conn, at_least, Insertion, inserted, no_parent}
use workflow_runtime_core.Registry.Record.{get_run}
use workflow_runtime_core.Registry.Create.{
  NewRun, existing_run, lineage_requested, after_conflict, after_insert, insert_new,
  create_run_found, create_run,
}
use workflow_runtime_core.Registry.Retry.{
  RetryArgs, inherit_execution_snapshot, mint_attempt, retry_workspace, retry_parent, create_retry,
}
use workflow_runtime_core.Registry.Invariant.{
  IsSound, detail-IsSound, emit-IsSound, insert_run-IsSound,
}

after_conflict-IsSound :
    (c : Insertion) (o : Option RunRecord) (db : Db)
    → IsSound db
    → IsSound (after_conflict c o db).1
after_conflict-IsSound c (some r) db h = h
after_conflict-IsSound (inserted r) none db h = h
after_conflict-IsSound _ none db h = h

after_insert-IsSound :
    (conn : Conn) (new : NewRun) (c : Insertion) (db : Db)
    → IsSound db
    → IsSound (after_insert conn new c db).1
unfolding after_insert
after_insert-IsSound conn new (inserted r) db h =
    let t = emit-IsSound conn r.run_id "created" _ db h in bind-keeps IsSound _ _ _ t (λ a done. t)
after_insert-IsSound conn new no_parent db h = h
after_insert-IsSound conn new c db h =
    after_conflict-IsSound c (existing_run new.idempotency_key db) db h

insert_new-IsSound :
    (conn : Conn) (new : NewRun) (db : Db) → IsSound db → IsSound (insert_new conn new db).1
unfolding insert_new
insert_new-IsSound conn new db h = after_insert-IsSound conn new _ _ (
    insert_run-IsSound _ _ (ground arith)
      (record { distinct = h.distinct; leases = h.leases; parents = h.parents; events = h.events }))

create_run_found-IsSound :
    (conn : Conn) (new : NewRun) (o : Option RunRecord) (db : Db)
    → IsSound db
    → IsSound (create_run_found conn new o db).1
unfolding create_run_found
create_run_found-IsSound conn new (some r) db h = h
create_run_found-IsSound conn new none db h =
    elim (Bool-cases (lineage_requested new && not (at_least 2 db.version))) [
      | inl e ↦ rw e h
      | inr e ↦ rw e (insert_new-IsSound conn new db h)
    ]

pub create_run-IsSound :
    (conn : Conn) (new : NewRun) (db : Db) → IsSound db → IsSound (create_run conn new db).1
unfolding create_run
create_run-IsSound conn new db h =
    create_run_found-IsSound conn new (existing_run new.idempotency_key db) db h

inherit-IsSound :
    (conn : Conn) (parent : RunRecord) (attempt_id : String) (db : Db)
    → IsSound db
    → IsSound (inherit_execution_snapshot conn parent attempt_id db).1
unfolding inherit_execution_snapshot
inherit-IsSound conn parent attempt_id db h =
    elim (Bool-cases parent.execution_metadata_column_present) [
      | inl e ↦
          let s = detail-IsSound attempt_id _ db (λ r. ground arith) h _ in
          rw e (bind-keeps IsSound _ _ _ s (λ a done. s))
      | inr e ↦ rw e h
    ]

mint_attempt-IsSound :
    (conn : Conn) (parent : RunRecord) (workspace : String) (args : RetryArgs) (db : Db)
    → IsSound db
    → IsSound (mint_attempt conn parent workspace args db).1
unfolding mint_attempt
mint_attempt-IsSound conn parent workspace args db h =
    let s = create_run-IsSound conn _ db h in
    bind-keeps IsSound _ _ _ s (λ attempt created.
      let t = inherit-IsSound conn parent attempt.run_id _ s in
      bind-keeps IsSound _ _ _ t (λ inherited done.
        let u = emit-IsSound conn parent.run_id "retried" _ _ t in
        bind-keeps IsSound _ _ _ u (λ b done'. u)))

retry_workspace-IsSound :
    (conn : Conn) (parent : RunRecord) (o : Option String) (args : RetryArgs) (db : Db)
    → IsSound db
    → IsSound (retry_workspace conn parent o args db).1
unfolding retry_workspace
retry_workspace-IsSound conn parent none args db h = h
retry_workspace-IsSound conn parent (some w) args db h =
    mint_attempt-IsSound conn parent w args db h

retry_parent-IsSound :
    (conn : Conn) (o : Option RunRecord) (args : RetryArgs) (db : Db)
    → IsSound db
    → IsSound (retry_parent conn o args db).1
unfolding retry_parent
retry_parent-IsSound conn none args db h = h
retry_parent-IsSound conn (some parent) args db h = elim (Bool-cases (is_failed parent.status)) [
  | inl e ↦ rw e (retry_workspace-IsSound conn parent parent.workspace_id args db h)
  | inr e ↦ rw e h
]

pub create_retry-IsSound :
    (conn : Conn) (k : String) (args : RetryArgs) (db : Db)
    → IsSound db
    → IsSound (create_retry conn k args db).1
unfolding create_retry
create_retry-IsSound conn k args db h = retry_parent-IsSound conn (get_run k db) args db h
