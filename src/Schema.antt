-- ===== src/Schema.antt =====
-- schema.py: the live version of the schema, and the gate that applications call.
use workflow_runtime_core.Base.{ℕ, Bool, not, ◌&&◌, Option, none, some, leb}
use workflow_runtime_core.Exec.{
  Exec, gets, pure, raise, raise_if, schema_version_mismatch, ◌>>=◌, ◌>>◌,
}
use workflow_runtime_core.Db.{Db, Conn}
use workflow_runtime_core.Migrations.Ledger.{core_namespace, migrations, verify_ledger}

-- SUPPORTED_SCHEMA_MIN, SUPPORTED_SCHEMA_MAX
abbrev pub supported_schema_min : ℕ
supported_schema_min = 1

abbrev pub supported_schema_max : ℕ
supported_schema_max = 5

unfoldable pub read_schema_version : Exec Db (Option ℕ)
read_schema_version = gets (λ db. db.version)

abbrev pub is_within : ℕ → ℕ → ℕ → Bool
is_within minimum maximum live = leb minimum live && leb live maximum

unfoldable pub require_live : Conn → ℕ → ℕ → Option ℕ → Exec Db ℕ
require_live conn minimum maximum none = raise schema_version_mismatch
require_live conn minimum maximum (some live) = do
  raise_if (not (is_within minimum maximum live)) schema_version_mismatch
  verify_ledger conn core_namespace (migrations conn) (some live)
  pure live

unfoldable pub require_compatible_schema : Conn → ℕ → ℕ → Exec Db ℕ
require_compatible_schema conn minimum maximum = do
  live ← read_schema_version
  require_live conn minimum maximum live
