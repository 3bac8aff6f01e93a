-- ===== src/Migrations/Recorded.antt =====
-- migrations.py: what an application of the core chain leaves in the ledger.
use workflow_runtime_core.Base.{
  ℕ, ◌≡◌, refl, sym, ap, ◌∙◌, inl, inr, Bool, true, false, not, ◌&&◌, Option, none, some, List, [],
  ◌∷◌, ◌++◌, arith, Bool-cases, str_eq, str_eq_refl, any, any-append, select, All, if◌then◌else◌,
}
use workflow_runtime_core.Exec.{ok, err, Exec, pure, unique_violation, bind-split}
use workflow_runtime_core.Db.{Db, Conn, Migration, LedgerRow}
use workflow_runtime_core.Migrations.Ledger.{
  core_namespace, migrations, ledger_rows, in_namespace, row_of, is_foreign, checksum,
}
use workflow_runtime_core.Migrations.Apply.{
  Principal, ledger_row, has_row, insert_into, record_migration, record_unless_there, backfill,
  predates_ledger, run_body, run_chain,
}

-- The ledger has a row for the version.
abbrev pub has_version : ℕ → Option (List LedgerRow) → Bool
has_version k none = false
has_version k (some rows) = has_row core_namespace k rows

-- The ledger has no row that this build defines otherwise.
abbrev pub is_clean : Conn → Option (List LedgerRow) → Bool
is_clean conn none = true
is_clean conn (some rows) =
    not (any (is_foreign conn (migrations conn)) (ledger_rows core_namespace rows))

abbrev pub IsOwn : Conn → Migration → Type 0
IsOwn conn m = is_foreign conn (migrations conn) (ledger_row conn core_namespace m) ≡ false

pub IsOwn-chain : (conn : Conn) → All (IsOwn conn) (migrations conn)
unfolding migrations is_foreign checksum
IsOwn-chain conn =
    let same : (v : ℕ)
        → not (str_eq (conn.sha256 (conn.ddl v)) (conn.sha256 (conn.ddl v))) ≡ false =
      λ v. rw (str_eq_refl (conn.sha256 (conn.ddl v))) refl in
    (same 1, (same 2, (same 3, (same 4, (same 5, tt)))))

select-append :
    {A : Type 0} (p : A → Bool) (xs : List A) (x : A)
    → select p (xs ++ x ∷ []) ≡ (if p x then select p xs ++ x ∷ [] else select p xs)
select-append p [] x = elim (Bool-cases (p x)) [ inl e ↦ rw e refl | inr e ↦ rw e refl ]
select-append p (y ∷ ys) x = rw (select-append p ys x) (elim (Bool-cases (p y)) [
  | inl e ↦ rw e (elim (Bool-cases (p x)) [ inl f ↦ rw f refl | inr f ↦ rw f refl ])
  | inr e ↦ rw e (elim (Bool-cases (p x)) [ inl f ↦ rw f refl | inr f ↦ rw f refl ])
])

-- The ledger of `db'` is that of `db` and a row for the version, at least.
abbrev pub Extends : Conn → Db → Db → Type 0
Extends conn db db' =
    ((k : ℕ) → has_version k db.ledger ≡ true → has_version k db'.ledger ≡ true)
    × (is_clean conn db.ledger ≡ true → is_clean conn db'.ledger ≡ true)
    × (db'.version ≡ db.version)

inserted :
    (conn : Conn) (m : Migration) (rows : List LedgerRow)
    → IsOwn conn m
    → ((k : ℕ)
        → has_row core_namespace k rows ≡ true
        → has_row core_namespace k (rows ++ ledger_row conn core_namespace m ∷ []) ≡ true)
      × (is_clean conn (some rows) ≡ true
          → is_clean conn (some (rows ++ ledger_row conn core_namespace m ∷ [])) ≡ true)
      × (has_row core_namespace m.version (rows ++ ledger_row conn core_namespace m ∷ []) ≡ true)
unfolding ledger_rows
inserted conn m rows own =
    let new = ledger_row conn core_namespace m in
    (
      λ k h.
          any-append (λ r. in_namespace core_namespace r && row_of k r) rows (new ∷ []) ∙ rw h refl,
      λ h. rw (select-append (in_namespace core_namespace) rows new) (
          rw
            (any-append (is_foreign conn (migrations conn))
              (select (in_namespace core_namespace) rows) (new ∷ []))
            (rw own (ground arith))),
      any-append (λ r. in_namespace core_namespace r && row_of m.version r) rows (new ∷ [])
          ∙ ground arith,
    )

Extends-refl : (conn : Conn) (db : Db) → Extends conn db db
Extends-refl conn db = (λ k h. h, λ h. h, refl)

pub Extends-trans :
    (conn : Conn) (a b c : Db) → Extends conn a b → Extends conn b c → Extends conn a c
Extends-trans conn a b c h k = (λ v e. k.0 v (h.0 v e), λ e. k.1 (h.1 e), k.2 ∙ h.2)

-- An INSERT of the row of a migration, whatever it does on a conflict.
insert_into-Extends :
    (conn : Conn) (m : Migration) (conflict : Exec Db (Unit {0})) (ledger : Option (List LedgerRow))
    (db db' : Db)
    → IsOwn conn m
    → db.ledger ≡ ledger
    → insert_into conn core_namespace m conflict ledger db ≡ (ok tt, db')
    → (conflict db ≡ (ok tt, db') → db' ≡ db)
    → Extends conn db db' × (has_version m.version db'.ledger ≡ true)
insert_into-Extends conn m conflict none db db' own here h quiet = cc h
insert_into-Extends conn m conflict (some rows) db db' own here h quiet =
    elim (Bool-cases (has_row core_namespace m.version rows)) [
      | inl e ↦
          let same = quiet (rw e at h) in (rw same (Extends-refl conn db), rw same (rw here e))
      | inr e ↦
          let after = ap (λ q. q.1) (rw e at h) in
          let (more, clean, there) = inserted conn m rows own in
          (
            rw (sym after)
                (λ k held. more k (rw here at held), λ tidy. clean (rw here at tidy), refl),
            rw (sym after) there,
          )
    ]

-- One step of the backfill.
backfilled :
    (conn : Conn) (m : Migration) (b : Bool) (db db' : Db)
    → IsOwn conn m
    → (if b then record_unless_there conn core_namespace m else pure tt) db ≡ (ok tt, db')
    → Extends conn db db' × (b ≡ true → has_version m.version db'.ledger ≡ true)
unfolding record_unless_there
backfilled conn m true db db' own h =
    let (more, there) =
      insert_into-Extends conn m (λ s. (ok tt, s)) db.ledger db db' own refl h
        λ same. sym (ap (λ q. q.1) same) in
    (more, λ e. there)
backfilled conn m false db db' own h =
    (rw (sym (ap (λ q. q.1) h)) (Extends-refl conn db), λ e. cc e)

pub backfill-Extends :
    (conn : Conn) (live : Option ℕ) (chain : List Migration) (db db' : Db)
    → All (IsOwn conn) chain
    → backfill conn live chain db ≡ (ok tt, db')
    → Extends conn db db'
      × All (λ m. predates_ledger live m ≡ true → has_version m.version db'.ledger ≡ true) chain
unfolding backfill
backfill-Extends conn live [] db db' own h = (rw (sym (ap (λ q. q.1) h)) (Extends-refl conn db), tt)
backfill-Extends conn live (m ∷ chain) db db' own h =
    let (u, t, step, rest) = bind-split _ _ db db' tt h in
    let one = backfilled conn m (predates_ledger live m) db t own.0 step in
    let others = backfill-Extends conn live chain t db' own.1 rest in
    (Extends-trans conn db t db' one.0 others.0, (λ e. others.0.0 m.version (one.1 e), others.1))

ran_body :
    (conn : Conn) (p : Principal) (m : Migration) (db t : Db)
    → run_body p m db ≡ (ok tt, t)
    → Extends conn db t
unfolding run_body
ran_body conn p m db t h = elim (Bool-cases (p.accepts m.sql)) [
  | inl e ↦ rw (sym (ap (λ q. q.1) (rw e at h))) (λ k held. held, λ tidy. tidy, refl)
  | inr e ↦ cc (rw e at h)
]

pub run_chain-Extends :
    (conn : Conn) (p : Principal) (todo : List Migration) (db db' : Db)
    → All (IsOwn conn) todo
    → run_chain conn p core_namespace todo db ≡ (ok tt, db')
    → Extends conn db db' × All (λ m. has_version m.version db'.ledger ≡ true) todo
unfolding run_chain record_migration
run_chain-Extends conn p [] db db' own h = (rw (sym (ap (λ q. q.1) h)) (Extends-refl conn db), tt)
run_chain-Extends conn p (m ∷ todo) db db' own h =
    let (u, t, ran, later) = bind-split _ _ db db' tt h in
    let (v, t', wrote, rest) = bind-split _ _ t db' tt later in
    let one =
      insert_into-Extends conn m (λ s. (err unique_violation, s)) t.ledger t t' own.0 refl wrote
        (λ e. cc e) in
    let others = run_chain-Extends conn p todo t' db' own.1 rest in
    (
      Extends-trans conn db t db' (ran_body conn p m db t ran)
          (Extends-trans conn t t' db' one.0 others.0),
      (others.0.0 m.version one.1, others.1),
    )
