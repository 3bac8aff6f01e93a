-- ===== src/Migrations/Ledger.antt =====
-- migrations.py: the chain of migrations and the verification of the recorded history.
pub mod Verified
use workflow_runtime_core.Base.{
  ℕ, zero, suc, ◌+◌, ◌-◌, String, Bool, true, false, not, Option, none, some, List, [], ◌∷◌, ltb,
  ◌==◌, str_eq, is_some, select, find?, any, if◌then◌else◌,
}
use workflow_runtime_core.Exec.{Result, ok, err, Exec, migration_error, migration_checksum_mismatch}
use workflow_runtime_core.Db.{Db, Conn, Migration, LedgerRow}

-- CORE_NAMESPACE
abbrev pub core_namespace : String
core_namespace = "core"

-- PRE_LEDGER_MAX_VERSION
abbrev pub pre_ledger_max_version : ℕ
pre_ledger_max_version = 1

abbrev pub core : Conn → ℕ → String → Migration
core conn version name = record { version = version; name = name; sql = conn.ddl version }

-- MIGRATIONS
unfoldable pub migrations : Conn → List Migration
migrations conn =
    core conn 1 "run_registry_v1"
    ∷ core conn 2 "workflow_data_plane_v2"
    ∷ core conn 3 "durable_messaging_v3"
    ∷ core conn 4 "execution_metadata_v4"
    ∷ core conn 5 "fenced_effect_ledger_v5"
    ∷ []

-- LATEST_VERSION
abbrev pub latest_version : ℕ
latest_version = 5

unfoldable pub checksum : Conn → Migration → String
checksum conn m = conn.sha256 m.sql

abbrev pub is_version : ℕ → Migration → Bool
is_version version m = m.version == version

abbrev pub found_or_raise : Option Migration → Result Migration
found_or_raise none = err migration_error
found_or_raise (some m) = ok m

unfoldable pub get_migration : Conn → ℕ → Result Migration
get_migration conn version = found_or_raise (find? (is_version version) (migrations conn))

abbrev pub floor_of : Option ℕ → ℕ
floor_of none = 0
floor_of (some current) = current

unfoldable pub pending : Conn → Option ℕ → List Migration
pending conn current = select (λ m. ltb (floor_of current) m.version) (migrations conn)

unfoldable pub ledger_exists : Db → Bool
ledger_exists db = is_some db.ledger

abbrev pub in_namespace : String → LedgerRow → Bool
in_namespace namespace r = str_eq r.namespace namespace

-- `_ledger_rows`: (namespace, version) is the primary key, so that the dict keeps every row.
unfoldable pub ledger_rows : String → List LedgerRow → List LedgerRow
ledger_rows namespace rows = select (in_namespace namespace) rows

abbrev pub row_of : ℕ → LedgerRow → Bool
row_of version r = r.version == version

unfoldable pub is_recorded : ℕ → List LedgerRow → Bool
is_recorded version recorded = any (row_of version) recorded

abbrev pub differs : Conn → LedgerRow → Option Migration → Bool
differs conn r none = false
differs conn r (some expected) = not (str_eq r.checksum (checksum conn expected))

-- A row of a version that this build defines otherwise.
unfoldable pub is_foreign : Conn → List Migration → LedgerRow → Bool
is_foreign conn chain r = differs conn r (find? (is_version r.version) chain)

-- Whether one of the `count` versions from `version` on has no row.
unfoldable pub has_gap : ℕ → ℕ → List LedgerRow → Bool
has_gap zero version recorded = false
has_gap (suc count) version recorded =
    let rest = has_gap count (version + 1) recorded in
    if is_recorded version recorded then rest else true

-- The versions of `range(PRE_LEDGER_MAX_VERSION + 1, applied_through + 1)`.
abbrev pub unaccounted : Option ℕ → List LedgerRow → Bool
unaccounted none recorded = false
unaccounted (some through) recorded =
    has_gap (through - pre_ledger_max_version) (pre_ledger_max_version + 1) recorded

abbrev pub beyond_pre_ledger : Option ℕ → Bool
beyond_pre_ledger none = false
beyond_pre_ledger (some through) = ltb pre_ledger_max_version through

unfoldable pub verify_rows : Conn → List Migration → Option ℕ → List LedgerRow → Bool
verify_rows conn chain through recorded =
    if any (is_foreign conn chain) recorded then false else not (unaccounted through recorded)

-- Whether `verify_ledger` passes.
unfoldable pub is_verified :
    Conn → String → List Migration → Option ℕ → Option (List LedgerRow) → Bool
is_verified conn namespace chain through none = not (beyond_pre_ledger through)
is_verified conn namespace chain through (some rows) =
    verify_rows conn chain through (ledger_rows namespace rows)

unfoldable pub verify_ledger : Conn → String → List Migration → Option ℕ → Exec Db (Unit {0})
verify_ledger conn namespace chain through db =
    if is_verified conn namespace chain through db.ledger
    then (ok tt, db)
    else (err migration_checksum_mismatch, db)
