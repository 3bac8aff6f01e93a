-- ===== src/Migrations/App.antt =====
-- migrations.py: the chains of applications.
use workflow_runtime_core.Base.{
  ℕ, ◌+◌, String, Bool, true, false, not, ◌&&◌, ◌||◌, Option, none, some, List, [], ◌∷◌, ltb, max,
  ◌==◌, str_eq, select, codes, is_lower, is_digit, at_most,
}
use workflow_runtime_core.Exec.{ok, Exec, pure, raise_if, modify, ◌>>◌, migration_error}
use workflow_runtime_core.Db.{Db, Conn, Migration, LedgerRow}
use workflow_runtime_core.Migrations.Ledger.{core_namespace, floor_of, ledger_rows, verify_ledger}
use workflow_runtime_core.Migrations.Apply.{
  Principal, assert_may_migrate, create_ledger, run_chain, last_version,
}

-- max(rows) if rows else None
abbrev highest : List LedgerRow → Option ℕ
highest [] = none
highest (r ∷ rows) = some (max r.version (floor_of (highest rows)))

abbrev app_version : String → Option (List LedgerRow) → Option ℕ
app_version namespace none = none
app_version namespace (some rows) = highest (ledger_rows namespace rows)

unfoldable pub read_app_version : String → Exec Db (Option ℕ)
read_app_version namespace db = (ok (app_version namespace db.ledger), db)

abbrev is_namespace_char : ℕ → Bool
is_namespace_char c = is_lower c || is_digit c || c == b'_' || c == b'-'

abbrev matches_app_namespace : List ℕ → Bool
matches_app_namespace [] = false
matches_app_namespace (c ∷ cs) = is_lower c && at_most is_namespace_char 63 cs

-- _APP_NAMESPACE_RE.match(namespace)
unfoldable pub is_app_namespace : String → Bool
unfolding codes
is_app_namespace s = matches_app_namespace (codes s)

-- versions == list(range(start, …))
abbrev pub is_contiguous : ℕ → List Migration → Bool
is_contiguous start [] = true
is_contiguous start (m ∷ chain) = m.version == start && is_contiguous (start + 1) chain

abbrev is_empty : List Migration → Bool
is_empty [] = true
is_empty (m ∷ chain) = false

unfoldable pub apply_app_todo : Conn → Principal → String → ℕ → List Migration → Exec Db ℕ
apply_app_todo conn principal namespace floor [] = pure floor
apply_app_todo conn principal namespace floor (m ∷ todo) = do
  run_chain conn principal namespace (m ∷ todo)
  pure (last_version m.version todo)

unfoldable pub apply_app_from : Conn → Principal → String → List Migration → Exec Db ℕ
apply_app_from conn principal namespace chain db =
    let floor = floor_of (app_version namespace db.ledger) in
    apply_app_todo conn principal namespace floor (select (λ m. ltb floor m.version) chain) db

unfoldable pub apply_app_migrations :
    Conn → Principal → String → List Migration → Option String → Exec Db ℕ
apply_app_migrations conn principal namespace chain owner_role = do
  raise_if (str_eq namespace core_namespace || not (is_app_namespace namespace)) migration_error
  raise_if (is_empty chain || not (is_contiguous 1 chain)) migration_error
  assert_may_migrate principal owner_role
  verify_ledger conn namespace chain none
  modify create_ledger
  apply_app_from conn principal namespace chain
