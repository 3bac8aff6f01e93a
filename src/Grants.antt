-- ===== src/Grants.antt =====
-- grants.py: the privilege manifests of the chains, and their reconciliation.
pub mod Exact
pub mod Checked
pub mod Missing
use workflow_runtime_core.Base.{
  ℕ, String, Bool, true, false, not, ◌&&◌, ◌||◌, List, [], ◌∷◌, ◌++◌, map, any, str_eq, ◌==◌,
  if◌then◌else◌,
}
use workflow_runtime_core.Exec.{
  Error, ok, err, Exec, pure, raise_if, ◌>>=◌, ◌>>◌, value_error, sql_error, undefined_table,
  auth_configuration_error,
}
use workflow_runtime_core.Migrations.Apply.{is_identifier}

-- The privileges of PostgreSQL on tables and sequences.
pub data Privilege : Type 0 where
  can_select can_insert can_update can_delete can_truncate can_reference can_trigger can_use :
      Privilege

abbrev place_of : Privilege → ℕ
place_of can_select = 0
place_of can_insert = 1
place_of can_update = 2
place_of can_delete = 3
place_of can_truncate = 4
place_of can_reference = 5
place_of can_trigger = 6
place_of can_use = 7

abbrev pub privilege_eq : Privilege → Privilege → Bool
privilege_eq p q = place_of p == place_of q

abbrev pub is_among : List Privilege → Privilege → Bool
is_among ps p = any (privilege_eq p) ps

abbrev pub operational_privileges : List Privilege
operational_privileges = can_select ∷ can_insert ∷ can_update ∷ can_delete ∷ []

abbrev pub ledger_privileges : List Privilege
ledger_privileges = can_select ∷ []

abbrev pub sequence_privileges : List Privilege
sequence_privileges = can_use ∷ can_select ∷ []

abbrev pub ledger_revocations : List Privilege
ledger_revocations = can_insert ∷ can_update ∷ can_delete ∷ can_truncate ∷ []

-- What `missing_privileges` asks of a ledger.
abbrev pub ledger_mutations : List Privilege
ledger_mutations = can_insert ∷ can_update ∷ can_delete ∷ []

-- A table or a sequence, by its schema and its name.
pub data Object : Type 0 where
  table : String → String → Object
  sequence : String → String → Object

abbrev pub object_eq : Object → Object → Bool
object_eq (table s n) (table t m) = str_eq s t && str_eq n m
object_eq (sequence s n) (sequence t m) = str_eq s t && str_eq n m
object_eq (table s n) (sequence t m) = false
object_eq (sequence s n) (table t m) = false

-- `GrantManifest`
pub record GrantManifest : Type 0 where
  pub name : String
  pub operational_tables : List String
  pub ledger_tables : List String
  pub sequences : List String

abbrev pub is_name_among : List String → String → Bool
is_name_among names n = any (str_eq n) names

-- `GrantManifest.__post_init__`
unfoldable pub check_manifest : GrantManifest → Exec (Unit {0}) GrantManifest
check_manifest m = do
  raise_if (any (is_name_among m.ledger_tables) m.operational_tables) value_error
  pure m

abbrev pub core_manifest : GrantManifest
core_manifest = record {
  name = "core";
  operational_tables =
      "runs" ∷ "run_events" ∷ "event_inbox" ∷ "run_launches" ∷ "event_outbox" ∷ "delivery_receipts"
      ∷ "delivery_receipt_events" ∷ [];
  ledger_tables = "schema_meta" ∷ "schema_migrations" ∷ [];
  sequences = "run_events_event_id_seq" ∷ "delivery_receipt_events_event_id_seq" ∷ [];
}

abbrev pub checkpoint_manifest : GrantManifest
checkpoint_manifest = record {
  name = "langgraph-checkpoint";
  operational_tables = "checkpoints" ∷ "checkpoint_blobs" ∷ "checkpoint_writes" ∷ [];
  ledger_tables = "checkpoint_migrations" ∷ [];
  sequences = [];
}

-- GRANT … ON … TO role, REVOKE … ON … FROM role
pub data Statement : Type 0 where
  grant : List Privilege → Object → String → Statement
  revoke : List Privilege → Object → String → Statement

abbrev pub grant_operational : String → String → String → Statement
grant_operational role schema t = grant operational_privileges (table schema t) role

unfoldable pub ledger_statements : String → String → List String → List Statement
ledger_statements role schema [] = []
ledger_statements role schema (t ∷ tables) =
    revoke ledger_revocations (table schema t) role
    ∷ grant ledger_privileges (table schema t) role
    ∷ ledger_statements role schema tables

abbrev pub grant_sequence : String → String → String → Statement
grant_sequence role schema s = grant sequence_privileges (sequence schema s) role

-- `_statements`
unfoldable pub statements : GrantManifest → String → String → List Statement
statements m role schema =
    map (grant_operational role schema) m.operational_tables
    ++ ledger_statements role schema m.ledger_tables
    ++ map (grant_sequence role schema) m.sequences

-- What the caller of `reconcile` has granted: to a role, on an object. A REVOKE takes back nothing
-- but the grants of its own grantor, which are these.
abbrev pub Catalog : Type 0
Catalog = String → Object → Privilege → Bool

abbrev pub is_on : String → Object → String → Object → Bool
is_on role o r o' = str_eq r role && object_eq o' o

unfoldable pub granted : Statement → Catalog → Catalog
granted (grant ps o role) c r o' p = (is_on role o r o' && is_among ps p) || c r o' p
granted (revoke ps o role) c r o' p = not (is_on role o r o' && is_among ps p) && c r o' p

-- What PostgreSQL answers: whether it takes a statement from the caller, which objects there are,
-- and what a role has otherwise: through its memberships and PUBLIC, or by the grants of others.
pub record Server : Type 0 where
  pub accepts : Statement → Bool
  pub exists : Object → Bool
  pub otherwise : String → Object → Privilege → Bool

unfoldable pub run_statements : Server → List Statement → Exec Catalog (Unit {0})
run_statements server [] c = (ok tt, c)
run_statements server (s ∷ ss) c =
    let rest = run_statements server ss (granted s c) in
    if server.accepts s then rest else (err sql_error, c)

-- `reconcile`
unfoldable pub reconcile : Server → GrantManifest → String → String → Exec Catalog (List Statement)
reconcile server m role schema = do
  raise_if (not (is_identifier role)) auth_configuration_error
  raise_if (not (is_identifier schema)) auth_configuration_error
  run_statements server (statements m role schema)
  pure (statements m role schema)

-- A finding: a privilege that the role lacks, or that it holds on a ledger.
pub data Disagreement : Type 0 where
  lacks : Privilege → Object → Disagreement
  holds : Privilege → Object → Disagreement

-- has_table_privilege, has_sequence_privilege
unfoldable pub has_privilege : Server → String → Object → Privilege → Exec Catalog Bool
has_privilege server role o p c =
    if server.exists o
    then (ok (c role o p || server.otherwise role o p), c)
    else (err undefined_table, c)

abbrev pub report : Bool → Disagreement → List Disagreement → List Disagreement
report true d ds = d ∷ ds
report false d ds = ds

unfoldable pub lacking :
    Server → String → Object → List Privilege → Exec Catalog (List Disagreement)
lacking server role o [] = pure []
lacking server role o (p ∷ ps) = do
  held ← has_privilege server role o p
  rest ← lacking server role o ps
  pure (report (not held) (lacks p o) rest)

unfoldable pub holding :
    Server → String → Object → List Privilege → Exec Catalog (List Disagreement)
holding server role o [] = pure []
holding server role o (p ∷ ps) = do
  held ← has_privilege server role o p
  rest ← holding server role o ps
  pure (report held (holds p o) rest)

unfoldable pub check_operational :
    Server → String → String → List String → Exec Catalog (List Disagreement)
check_operational server role schema [] = pure []
check_operational server role schema (t ∷ tables) = do
  found ← lacking server role (table schema t) operational_privileges
  rest ← check_operational server role schema tables
  pure (found ++ rest)

unfoldable pub check_ledgers :
    Server → String → String → List String → Exec Catalog (List Disagreement)
check_ledgers server role schema [] = pure []
check_ledgers server role schema (t ∷ tables) = do
  missing ← lacking server role (table schema t) ledger_privileges
  found ← holding server role (table schema t) ledger_mutations
  rest ← check_ledgers server role schema tables
  pure (missing ++ found ++ rest)

unfoldable pub check_sequences :
    Server → String → String → List String → Exec Catalog (List Disagreement)
check_sequences server role schema [] = pure []
check_sequences server role schema (s ∷ sequences) = do
  found ← lacking server role (sequence schema s) sequence_privileges
  rest ← check_sequences server role schema sequences
  pure (found ++ rest)

-- `missing_privileges`
unfoldable pub missing_privileges :
    Server → GrantManifest → String → String → Exec Catalog (List Disagreement)
missing_privileges server m role schema = do
  raise_if (not (is_identifier role)) auth_configuration_error
  raise_if (not (is_identifier schema)) auth_configuration_error
  operational ← check_operational server role schema m.operational_tables
  ledgers ← check_ledgers server role schema m.ledger_tables
  sequences ← check_sequences server role schema m.sequences
  pure (operational ++ ledgers ++ sequences)
