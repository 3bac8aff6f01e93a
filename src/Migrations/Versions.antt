-- ===== src/Migrations/Versions.antt =====
-- migrations.py: the versions that a ledger accounts for.
use workflow_runtime_core.Base.{
  ℕ, zero, suc, ◌+◌, ◌-◌, ◌≡◌, refl, sym, ◌∙◌, inl, inr, true, false, Option, none, some, List, [],
  ◌∷◌, arith, Bool-cases, any,
}
use workflow_runtime_core.Db.{Db, Conn, LedgerRow}
use workflow_runtime_core.Migrations.Ledger.{
  core_namespace, migrations, ledger_rows, in_namespace, is_foreign, is_recorded, has_gap,
  verify_rows, is_verified,
}
use workflow_runtime_core.Migrations.Apply.{has_row}
use workflow_runtime_core.Migrations.Recorded.{has_version, is_clean, Extends}

recorded_row :
    (k : ℕ) (rows : List LedgerRow)
    → is_recorded k (ledger_rows core_namespace rows) ≡ has_row core_namespace k rows
unfolding is_recorded ledger_rows
recorded_row k [] = refl
recorded_row k (r ∷ rows) = elim (Bool-cases (in_namespace core_namespace r)) [
  | inl e ↦ rw e (rw (recorded_row k rows) refl)
  | inr e ↦ rw e (recorded_row k rows)
]

-- A row for each of `count` versions.
unfoldable pub Versions : ℕ → ℕ → Option (List LedgerRow) → Type 0
Versions zero v ledger = Unit
Versions (suc count) v ledger = (has_version v ledger ≡ true) × Versions count (v + 1) ledger

gap-Versions :
    (count v : ℕ) (rows : List LedgerRow)
    → has_gap count v (ledger_rows core_namespace rows) ≡ false
    → Versions count v (some rows)
unfolding has_gap Versions
gap-Versions zero v rows h = tt
gap-Versions (suc count) v rows h =
    elim (Bool-cases (is_recorded v (ledger_rows core_namespace rows))) [
      | inl e ↦ (sym (recorded_row v rows) ∙ e, gap-Versions count (v + 1) rows (rw e at h))
      | inr e ↦ cc (rw e at h)
    ]

Versions-gap :
    (count v : ℕ) (rows : List LedgerRow)
    → Versions count v (some rows)
    → has_gap count v (ledger_rows core_namespace rows) ≡ false
unfolding has_gap Versions
Versions-gap zero v rows h = refl
Versions-gap (suc count) v rows h =
    rw (recorded_row v rows ∙ h.0) (Versions-gap count (v + 1) rows h.1)

pub verified-Versions :
    (conn : Conn) (n : ℕ) (ledger : Option (List LedgerRow))
    → is_verified conn core_namespace (migrations conn) (some n) ledger ≡ true
    → (is_clean conn ledger ≡ true) × Versions (n - 1) 2 ledger
unfolding is_verified verify_rows Versions
verified-Versions conn zero none h = (refl, tt)
verified-Versions conn (suc zero) none h = (refl, tt)
verified-Versions conn (suc (suc n)) none h = let none_left : ⊥ = ground arith in absurd none_left
verified-Versions conn n (some rows) h =
    elim (Bool-cases (any (is_foreign conn (migrations conn)) (ledger_rows core_namespace rows))) [
      | inl e ↦ cc (rw e at h)
      | inr e ↦ let complete = rw e at h in (rw e refl, gap-Versions (n - 1) 2 rows (ground arith))
    ]

pub Versions-verified :
    (conn : Conn) (ledger : Option (List LedgerRow))
    → is_clean conn ledger ≡ true
    → Versions 5 1 ledger
    → is_verified conn core_namespace (migrations conn) (some 5) ledger ≡ true
unfolding is_verified verify_rows Versions
Versions-verified conn none clean h = cc (h.0)
Versions-verified conn (some rows) clean h =
    elim (Bool-cases (any (is_foreign conn (migrations conn)) (ledger_rows core_namespace rows))) [
      | inl e ↦ cc (rw e at clean)
      | inr e ↦ rw e (rw (Versions-gap 4 2 rows h.1) refl)
    ]

-- The database of a chain that is at its last version.
abbrev pub Current : Conn → Db → Type 0
Current conn db = (db.version ≡ some 5) × (is_clean conn db.ledger ≡ true) × Versions 5 1 db.ledger

pub Versions-Extends :
    (conn : Conn) (db db' : Db) (count v : ℕ)
    → Extends conn db db'
    → Versions count v db.ledger
    → Versions count v db'.ledger
unfolding Versions
Versions-Extends conn db db' zero v more h = tt
Versions-Extends conn db db' (suc count) v more h =
    (more.0 v h.0, Versions-Extends conn db db' count (v + 1) more h.1)
