-- ===== src/Tests/Migrations.antt =====
-- Examples of the migrations.
use workflow_runtime_core.Base.{◌≡◌, refl, true, none, []}
use workflow_runtime_core.Exec.{ok, ◌>>=◌}
use workflow_runtime_core.Db.{Db}
use workflow_runtime_core.Schema.{read_schema_version}
use workflow_runtime_core.Migrations.Ledger.{
  migrations, ledger_rows, verify_ledger, verify_rows, is_verified, is_foreign, has_gap,
  is_recorded, checksum, ledger_exists, pending, latest_version,
}
use workflow_runtime_core.Migrations.Apply.{
  Principal, apply_migrations, apply_from, apply_todo, assert_may_migrate, set_role, may_write,
  create_ledger, backfill, record_unless_there, record_migration, run_body, run_chain, todo_of,
}
use workflow_runtime_core.Migrations.Again.{apply_again}
use workflow_runtime_core.Tests.Samples.{session, db_with}

abbrev owner : Principal
owner = record {
  is_member = λ role. true;
  may_insert = λ role. true;
  may_create = λ role. true;
  accepts = λ sql. true;
}

abbrev fresh : Db
fresh = record (db_with []) { version = none }

abbrev migrated_once : Db
unfolding migrations ledger_rows verify_ledger verify_rows is_verified is_foreign has_gap
    is_recorded checksum ledger_exists pending apply_migrations apply_from apply_todo
    assert_may_migrate set_role may_write create_ledger backfill record_unless_there
    record_migration run_body run_chain todo_of read_schema_version ◌>>=◌
migrated_once = (apply_migrations (session 10) owner none none fresh).1

apply_again_example :
    (5 ≡ latest_version)
    × (apply_migrations (session 10) owner none none migrated_once ≡ (ok 5, migrated_once))
unfolding migrations ledger_rows verify_ledger verify_rows is_verified is_foreign has_gap
    is_recorded checksum ledger_exists pending apply_migrations apply_from apply_todo
    assert_may_migrate set_role may_write create_ledger backfill record_unless_there
    record_migration run_body run_chain todo_of read_schema_version ◌>>=◌
apply_again_example = apply_again (session 10) owner none fresh migrated_once 5 refl refl
