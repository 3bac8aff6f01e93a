-- ===== src/Migrations/Apply.antt =====
-- migrations.py: the migrator. A transaction holds the advisory lock from its first statement to
-- its end, so that migrators run one after the other.
pub mod Privilege
use workflow_runtime_core.Base.{
  ℕ, zero, suc, ◌+◌, String, Bool, true, false, not, ◌&&◌, ◌||◌, Option, none, some, List, [], ◌∷◌,
  ◌++◌, map, ltb, leb, max, ◌==◌, str_eq, or_else, is_some, select, any, length, codes, is_lower,
  is_digit, at_most, if◌then◌else◌,
}
use workflow_runtime_core.Exec.{
  Error, ok, err, Exec, pure, raise_if, modify, ◌>>=◌, ◌>>◌, unique_violation, undefined_table,
  migration_error, migration_role_required, auth_configuration_error, sql_error,
}
use workflow_runtime_core.Db.{Db, Conn, Migration, LedgerRow}
use workflow_runtime_core.Schema.{read_schema_version}
use workflow_runtime_core.Migrations.Ledger.{
  core_namespace, pre_ledger_max_version, migrations, latest_version, checksum, floor_of, pending,
  ledger_exists, ledger_rows, in_namespace, row_of, verify_ledger,
}

-- What PostgreSQL answers to the session of a migrator: whether its login is a member of a role,
-- whether the current role (`none` for the login's own) holds INSERT on schema_migrations and
-- CREATE on the schema, and whether a migration's body runs.
pub record Principal : Type 0 where
  pub is_member : String → Bool
  pub may_insert : Option String → Bool
  pub may_create : Option String → Bool
  pub accepts : String → Bool

abbrev is_upper : ℕ → Bool
is_upper c = leb b'A' c && leb c b'Z'

abbrev is_initial : ℕ → Bool
is_initial c = is_lower c || is_upper c || c == b'_'

abbrev is_identifier_char : ℕ → Bool
is_identifier_char c = is_initial c || is_digit c || c == b'$'

abbrev matches_identifier : List ℕ → Bool
matches_identifier [] = false
matches_identifier (c ∷ cs) = is_initial c && at_most is_identifier_char 62 cs

-- _IDENTIFIER_RE.match(value)
unfoldable pub is_identifier : String → Bool
unfolding codes
is_identifier s = matches_identifier (codes s)

-- `set_role`, where there is a role to take on.
unfoldable pub set_role : Principal → Option String → Exec Db (Unit {0})
set_role principal none db = (ok tt, db)
set_role principal (some role) db =
    if not (is_identifier role)
    then (err auth_configuration_error, db)
    else if principal.is_member role
    then (ok tt, db)
    else (err migration_role_required, db)

unfoldable pub may_write : Principal → Option String → Db → Bool
may_write principal owner_role db =
    if ledger_exists db then principal.may_insert owner_role else principal.may_create owner_role

unfoldable pub assert_may_migrate : Principal → Option String → Exec Db (Unit {0})
assert_may_migrate principal owner_role = do
  set_role principal owner_role
  λ db. raise_if (not (may_write principal owner_role db)) migration_role_required db

-- CREATE TABLE IF NOT EXISTS schema_migrations
unfoldable pub create_ledger : Db → Db
create_ledger db = record db { ledger = some (or_else db.ledger []) }

abbrev pub ledger_row : Conn → String → Migration → LedgerRow
ledger_row conn namespace m = record {
  namespace = namespace;
  version = m.version;
  name = m.name;
  checksum = checksum conn m;
}

abbrev pub has_row : String → ℕ → List LedgerRow → Bool
has_row namespace version rows = any (λ r. in_namespace namespace r && row_of version r) rows

abbrev pub insert_into :
    Conn → String → Migration → Exec Db (Unit {0}) → Option (List LedgerRow) → Exec Db (Unit {0})
insert_into conn namespace m conflict none db = (err undefined_table, db)
insert_into conn namespace m conflict (some rows) db =
    if has_row namespace m.version rows
    then conflict db
    else (ok tt, record db { ledger = some (rows ++ ledger_row conn namespace m ∷ []) })

-- INSERT INTO schema_migrations
unfoldable pub record_migration : Conn → String → Migration → Exec Db (Unit {0})
record_migration conn namespace m db =
    insert_into conn namespace m (λ db'. (err unique_violation, db')) db.ledger db

-- … ON CONFLICT (namespace, version) DO NOTHING
unfoldable pub record_unless_there : Conn → String → Migration → Exec Db (Unit {0})
record_unless_there conn namespace m db =
    insert_into conn namespace m (λ db'. (ok tt, db')) db.ledger db

abbrev pub predates_ledger : Option ℕ → Migration → Bool
predates_ledger live m = leb m.version (floor_of live) && leb m.version pre_ledger_max_version

unfoldable pub backfill : Conn → Option ℕ → List Migration → Exec Db (Unit {0})
backfill conn live [] = pure tt
backfill conn live (m ∷ chain) = do
  if predates_ledger live m then record_unless_there conn core_namespace m else pure tt
  backfill conn live chain

-- cur.execute(migration.sql)
unfoldable pub run_body : Principal → Migration → Exec Db (Unit {0})
run_body principal m db =
    if principal.accepts m.sql
    then (ok tt, record db { executed = db.executed ++ m ∷ [] })
    else (err sql_error, db)

unfoldable pub run_chain : Conn → Principal → String → List Migration → Exec Db (Unit {0})
run_chain conn principal namespace [] = pure tt
run_chain conn principal namespace (m ∷ todo) = do
  run_body principal m
  record_migration conn namespace m
  run_chain conn principal namespace todo

-- todo[-1].version
abbrev pub last_version : ℕ → List Migration → ℕ
last_version v [] = v
last_version v (m ∷ todo) = last_version m.version todo

unfoldable pub apply_todo : Conn → Principal → Option ℕ → List Migration → Exec Db ℕ
apply_todo conn principal live [] = pure (floor_of live)
apply_todo conn principal live (m ∷ todo) = do
  run_chain conn principal core_namespace (m ∷ todo)
  modify (λ db. record db { version = some (last_version m.version todo) })
  pure (last_version m.version todo)

abbrev pub is_newer : Option ℕ → Bool
is_newer none = false
is_newer (some live) = ltb latest_version live

-- [m for m in pending(live) if m.version <= ceiling]
unfoldable pub todo_of : Conn → Option ℕ → ℕ → List Migration
todo_of conn live ceiling = select (λ m. leb m.version ceiling) (pending conn live)

unfoldable pub apply_from : Conn → Principal → ℕ → Option ℕ → Exec Db ℕ
apply_from conn principal ceiling live = do
  raise_if (is_newer live) migration_error
  verify_ledger conn core_namespace (migrations conn) live
  modify create_ledger
  backfill conn live (migrations conn)
  apply_todo conn principal live (todo_of conn live ceiling)

unfoldable pub apply_migrations : Conn → Principal → Option ℕ → Option String → Exec Db ℕ
apply_migrations conn principal target owner_role = do
  raise_if (ltb latest_version (or_else target latest_version)) migration_error
  assert_may_migrate principal owner_role
  live ← read_schema_version
  apply_from conn principal (or_else target latest_version) live
