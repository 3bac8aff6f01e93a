-- ===== src/Migrations/Ledger/Verified.antt =====
-- What `verify_ledger` accepts.
use mathlib.Core.Logic.{◌↔◌}
use native.Mathlib.Decide.{dec_lt}
use workflow_runtime_core.Base.{
  ℕ, zero, suc, ◌+◌, ◌-◌, ◌≤◌, ◌<◌, String, ◌≡◌, refl, sym, ap, ◌∙◌, inl, inr, Bool, true, false,
  not, some, List, [], ◌∷◌, arith, eq_iff, str_eq, eq→str_eq, find?, any, All, Bool-cases,
  Option-cases, if◌then◌else◌,
}
use workflow_runtime_core.Exec.{Result, ok, err, migration_checksum_mismatch}
use workflow_runtime_core.Db.{Db, Conn, Migration, LedgerRow}
use workflow_runtime_core.Migrations.Ledger.{
  checksum, is_version, ledger_rows, is_recorded, is_foreign, has_gap, verify_rows, is_verified,
  verify_ledger,
}

-- The row has the checksum that the chain gives its version, if the chain has it.
abbrev pub Trusted : Conn → List Migration → LedgerRow → Type 0
Trusted conn chain r =
    (m : Migration) → find? (is_version r.version) chain ≡ some m → r.checksum ≡ checksum conn m

-- Each version from 2 on that was applied has a row.
abbrev pub Accounted : ℕ → List LedgerRow → Type 0
Accounted through recorded = (v : ℕ) → 2 ≤ v → v ≤ through → is_recorded v recorded ≡ true

pub has_gap-none :
    (count v : ℕ) (recorded : List LedgerRow)
    → ((w : ℕ) → v ≤ w → w < v + count → is_recorded w recorded ≡ true)
    → has_gap count v recorded ≡ false
unfolding has_gap
has_gap-none zero v recorded h = refl
has_gap-none (suc count) v recorded h =
    rw (h v (omega arith) (omega arith))
      (has_gap-none count (v + 1) recorded (λ w p q. h w (omega arith) (omega arith)))

none-has_gap :
    (count v : ℕ) (recorded : List LedgerRow)
    → has_gap count v recorded ≡ false
    → (w : ℕ) → v ≤ w
    → w < v + count
    → is_recorded w recorded ≡ true
unfolding has_gap
none-has_gap zero v recorded h w p q = absurd (omega arith)
none-has_gap (suc count) v recorded h w p q = elim (Bool-cases (is_recorded v recorded)) [
  | inl e ↦ elim (dec_lt v w) [
    | yes later ↦ none-has_gap count (v + 1) recorded (rw e at h) w (omega arith) (omega arith)
    | no here ↦ let same : w ≡ v = omega arith in rw same e
  ]
  | inr e ↦ cc (rw e at h)
]

any-All : {A : Type 0} (p : A → Bool) (xs : List A) → any p xs ≡ false → All (λ a. p a ≡ false) xs
any-All p [] h = tt
any-All p (x ∷ xs) h = elim (Bool-cases (p x)) [
  | inl e ↦ cc (rw e at h)
  | inr e ↦ (e, any-All p xs (rw e at h))
]

pub All-any :
    {A : Type 0} (p : A → Bool) (xs : List A) → All (λ a. p a ≡ false) xs → any p xs ≡ false
All-any p [] h = refl
All-any p (x ∷ xs) h = rw h.0 (All-any p xs h.1)

foreign-Trusted :
    (conn : Conn) (chain : List Migration) (r : LedgerRow)
    → is_foreign conn chain r ≡ false
    → Trusted conn chain r
unfolding is_foreign
foreign-Trusted conn chain r h m e =
    let same : not (str_eq r.checksum (checksum conn m)) ≡ false = rw e at h in
    ground (arith, same, eq_iff r.checksum (checksum conn m))

Trusted-foreign :
    (conn : Conn) (chain : List Migration) (r : LedgerRow)
    → Trusted conn chain r
    → is_foreign conn chain r ≡ false
unfolding is_foreign
Trusted-foreign conn chain r h = elim (Option-cases (find? (is_version r.version) chain)) [
  | inl e ↦ rw e
  | inr (m, e) ↦ rw e (rw (eq→str_eq r.checksum (checksum conn m) (h m e)))
]

foreign-All :
    (conn : Conn) (chain : List Migration) (rows : List LedgerRow)
    → All (λ r. is_foreign conn chain r ≡ false) rows
    → All (Trusted conn chain) rows
foreign-All conn chain [] h = tt
foreign-All conn chain (r ∷ rows) h =
    (foreign-Trusted conn chain r h.0, foreign-All conn chain rows h.1)

All-foreign :
    (conn : Conn) (chain : List Migration) (rows : List LedgerRow)
    → All (Trusted conn chain) rows
    → All (λ r. is_foreign conn chain r ≡ false) rows
All-foreign conn chain [] h = tt
All-foreign conn chain (r ∷ rows) h =
    (Trusted-foreign conn chain r h.0, All-foreign conn chain rows h.1)

module _ (conn : Conn) (chain : List Migration) (through : ℕ) (recorded : List LedgerRow) where
  pub rows-verified :
      All (Trusted conn chain) recorded
      → Accounted through recorded
      → verify_rows conn chain (some through) recorded ≡ true
  unfolding verify_rows
  rows-verified trusted accounted = rw (
    All-any (is_foreign conn chain) recorded (All-foreign conn chain recorded trusted),
    has_gap-none (through - 1) 2 recorded (λ w p q. accounted w p (omega arith)),
  )

  pub verified-rows :
      verify_rows conn chain (some through) recorded ≡ true
      → All (Trusted conn chain) recorded × Accounted through recorded
  unfolding verify_rows
  verified-rows h = elim (Bool-cases (any (is_foreign conn chain) recorded)) [
    | inl e ↦ cc (rw e at h)
    | inr e ↦
        let gapless : has_gap (through - 1) 2 recorded ≡ false = ground (arith, rw e at h) in
        (
          foreign-All conn chain recorded (any-All (is_foreign conn chain) recorded e),
          λ v p q. none-has_gap (through - 1) 2 recorded gapless v p (omega arith),
        )
  ]

abbrev outcome : Db → Bool → Result (Unit {0}) × Db
outcome db b = if b then (ok tt, db) else (err migration_checksum_mismatch, db)

accepted : (db : Db) (b : Bool) → outcome db b ≡ (ok tt, db) → b ≡ true
accepted db true e = refl
accepted db false e = cc e

-- The ledger's verification accepts exactly the histories that this build accounts for: where the
-- ledger is there, `verify_ledger` passes, and changes nothing, just when each row of the
-- namespace has the checksum that the build gives to its version (if the build knows it) and each
-- version from 2 to the applied one has a row, those that the build does not know included.
pub verify_ledger-exact :
    (conn : Conn) (namespace : String) (chain : List Migration) (through : ℕ) (db : Db)
    (rows : List LedgerRow)
    → db.ledger ≡ some rows
    → (verify_ledger conn namespace chain (some through) db ≡ (ok tt, db)) ↔ (
        All (Trusted conn chain) (ledger_rows namespace rows)
        × Accounted through (ledger_rows namespace rows))
unfolding verify_ledger is_verified
verify_ledger-exact conn namespace chain through db rows there =
    let recorded = ledger_rows namespace rows in
    let same : is_verified conn namespace chain (some through) db.ledger
        ≡ verify_rows conn chain (some through) recorded =
      ap (is_verified conn namespace chain (some through)) there in
    (
      λ passed. verified-rows conn chain through recorded (sym same ∙ accepted db _ passed),
      λ h. let passes = same ∙ rows-verified conn chain through recorded h.0 h.1 in rw passes,
    )
