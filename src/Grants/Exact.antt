-- ===== src/Grants/Exact.antt =====
-- grants.py: what the reconciliation of a manifest leaves granted.
use workflow_runtime_core.Base.{
  String, ◌≡◌, refl, Bool, true, false, List, [], ◌∷◌, any, if◌then◌else◌,
}
use workflow_runtime_core.Grants.{
  Privilege, can_select, can_insert, can_update, can_delete, can_truncate, can_reference,
  can_trigger, can_use, Object, table, sequence, object_eq, GrantManifest, Statement, Catalog,
  granted,
}

-- What the role has on an object once the manifest is applied, by the class of the object.
abbrev pub is_operational : GrantManifest → String → Object → Bool
is_operational m schema o = any (λ t. object_eq o (table schema t)) m.operational_tables

abbrev pub is_ledger : GrantManifest → String → Object → Bool
is_ledger m schema o = any (λ t. object_eq o (table schema t)) m.ledger_tables

abbrev pub is_sequence : GrantManifest → String → Object → Bool
is_sequence m schema o = any (λ s. object_eq o (sequence schema s)) m.sequences

-- On an operational table the role has SELECT, INSERT, UPDATE and DELETE, and what else it had.
abbrev pub on_table : Privilege → Bool → Bool
on_table can_select before = true
on_table can_insert before = true
on_table can_update before = true
on_table can_delete before = true
on_table can_truncate before = before
on_table can_reference before = before
on_table can_trigger before = before
on_table can_use before = before

-- On a ledger it has SELECT, has lost INSERT, UPDATE, DELETE and TRUNCATE, and has what else it
-- had.
abbrev pub on_ledger : Privilege → Bool → Bool
on_ledger can_select before = true
on_ledger can_insert before = false
on_ledger can_update before = false
on_ledger can_delete before = false
on_ledger can_truncate before = false
on_ledger can_reference before = before
on_ledger can_trigger before = before
on_ledger can_use before = before

-- On a sequence it has USAGE and SELECT, and what else it had.
abbrev pub on_sequence : Privilege → Bool → Bool
on_sequence can_use before = true
on_sequence can_select before = true
on_sequence can_insert before = before
on_sequence can_update before = before
on_sequence can_delete before = before
on_sequence can_truncate before = before
on_sequence can_reference before = before
on_sequence can_trigger before = before

abbrev pub entitled : GrantManifest → String → Object → Privilege → Bool → Bool
entitled m schema o p before =
    if is_sequence m schema o
    then on_sequence p before
    else if is_ledger m schema o
    then on_ledger p before
    else if is_operational m schema o
    then on_table p before
    else before

apply_all : List Statement → Catalog → Catalog
apply_all [] c = c
apply_all (s ∷ ss) c = apply_all ss (granted s c)

pub no_table :
    (schema s n : String) (tables : List String)
    → any (λ t. object_eq (sequence s n) (table schema t)) tables ≡ false
no_table schema s n [] = refl
no_table schema s n (t ∷ tables) = no_table schema s n tables

pub no_sequence :
    (schema s n : String) (names : List String)
    → any (λ t. object_eq (table s n) (sequence schema t)) names ≡ false
no_sequence schema s n [] = refl
no_sequence schema s n (t ∷ names) = no_sequence schema s n names

pub classes_apart :
    (m : GrantManifest) (schema : String) (o : Object)
    → is_sequence m schema o ≡ true
    → (is_ledger m schema o ≡ false) × (is_operational m schema o ≡ false)
classes_apart m schema (table s n) h = cc (no_sequence schema s n m.sequences, h)
classes_apart m schema (sequence s n) h =
    (no_table schema s n m.ledger_tables, no_table schema s n m.operational_tables)
