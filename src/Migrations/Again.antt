-- ===== src/Migrations/Again.antt =====
-- migrations.py: a second application of the core chain.
use workflow_runtime_core.Base.{
  ℕ, String, ◌≡◌, refl, sym, ap, inl, inr, true, false, Option, none, some, List, [], is_some,
  Bool-cases, or_else,
}
use mathlib.Core.Path.{subst}
use workflow_runtime_core.Exec.{migration_error, ok, ◌>>=◌, bind-split, past_guard, ok-injective}
use workflow_runtime_core.Db.{Db, Conn, Migration, LedgerRow}
use workflow_runtime_core.Schema.{read_schema_version}
use workflow_runtime_core.Migrations.Ledger.{
  core, core_namespace, ledger_exists, migrations, latest_version, verify_ledger, pending,
}
use workflow_runtime_core.Migrations.Apply.{
  Principal, is_identifier, set_role, may_write, assert_may_migrate, create_ledger, insert_into,
  record_unless_there, backfill, todo_of, apply_todo, apply_from, apply_migrations,
}
use workflow_runtime_core.Migrations.Recorded.{has_version}
use workflow_runtime_core.Migrations.Versions.{Versions, Versions-verified, Current}
use workflow_runtime_core.Migrations.Current.{applied-Current}

kept_ledger :
    (db : Db) (ledger : Option (List LedgerRow))
    → db.ledger ≡ ledger
    → has_version 1 ledger ≡ true
    → create_ledger db ≡ db
unfolding create_ledger
kept_ledger db none here h = cc h
kept_ledger db (some rows) here h =
    let same : some (or_else db.ledger []) ≡ db.ledger = rw here refl in
    ap (λ l. record db { ledger = l }) same

kept_row :
    (conn : Conn) (m : Migration) (db : Db) (ledger : Option (List LedgerRow))
    → has_version m.version ledger ≡ true
    → insert_into conn core_namespace m (λ s. (ok tt, s)) ledger db ≡ (ok tt, db)
kept_row conn m db none h = cc h
kept_row conn m db (some rows) h = rw h refl

again_from :
    (conn : Conn) (p : Principal) (db : Db)
    → Current conn db
    → apply_from conn p 5 (some 5) db ≡ (ok 5, db)
unfolding apply_from verify_ledger backfill record_unless_there todo_of pending migrations
    apply_todo Versions ◌>>=◌
again_from conn p db h = rw (Versions-verified conn db.ledger h.1 h.2) (
    rw (kept_ledger db db.ledger refl h.2.0)
      (rw (kept_row conn (core conn 1 "run_registry_v1") db db.ledger h.2.0) refl))

set_role-ok :
    (p : Principal) (role : Option String) (db t : Db)
    → set_role p role db ≡ (ok tt, t)
    → (db ≡ t) × ((s : Db) → set_role p role s ≡ (ok tt, s))
unfolding set_role
set_role-ok p none db t h = (ap (λ q. q.1) h, λ s. refl)
set_role-ok p (some role) db t h = elim (Bool-cases (is_identifier role)) [
  | inl e ↦ elim (Bool-cases (p.is_member role)) [
    | inl f ↦ (ap (λ q. q.1) (rw f at (rw e at h)), λ s. rw e (rw f refl))
    | inr f ↦ cc (rw f at (rw e at h))
  ]
  | inr e ↦ cc (rw e at h)
]

exists_of : (ledger : Option (List LedgerRow)) → has_version 1 ledger ≡ true → is_some ledger ≡ true
exists_of none h = cc h
exists_of (some rows) h = refl

asserting :
    (conn : Conn) (p : Principal) (role : Option String) (db db' : Db) (v : ℕ)
    → apply_migrations conn p none role db ≡ (ok v, db')
    → (live : Option ℕ) × (t : Db) × (assert_may_migrate p role db ≡ (ok tt, t))
      × (t.version ≡ live)
      × (apply_from conn p 5 live t ≡ (ok v, db'))
unfolding apply_migrations read_schema_version
asserting conn p role db db' v h =
    let (ahead, h1) = past_guard false migration_error _ db db' v h in
    let (u, t, asserted, h2) = bind-split _ _ db db' v h1 in
    let (live, t', read, h3) = bind-split _ _ t db' v h2 in
    let still : t ≡ t' = ap (λ q. q.1) read in
    (
      live,
      t,
      asserted,
      ok-injective (ap (λ q. q.0) read),
      subst (λ x. apply_from conn p 5 live x ≡ (ok v, db')) (sym still) h3,
    )

Current-exists : (conn : Conn) (db : Db) → Current conn db → ledger_exists db ≡ true
unfolding ledger_exists Versions
Current-exists conn db h = exists_of db.ledger h.2.0

asserted_role :
    (p : Principal) (role : Option String) (db t : Db)
    → assert_may_migrate p role db ≡ (ok tt, t)
    → (s : Db) → set_role p role s ≡ (ok tt, s)
unfolding assert_may_migrate
asserted_role p role db t h =
    let (u, r, taken, checked) = bind-split _ _ db t tt h in (set_role-ok p role db r taken).1

assert-again :
    (p : Principal) (role : Option String) (db t s : Db)
    → assert_may_migrate p role db ≡ (ok tt, t)
    → p.may_insert role ≡ true
    → ledger_exists s ≡ true
    → assert_may_migrate p role s ≡ (ok tt, s)
unfolding assert_may_migrate may_write ◌>>=◌
assert-again p role db t s h may there = rw (asserted_role p role db t h s) (rw there (rw may refl))

-- Once `apply_migrations` has brought the core chain to its end, it is idempotent: the second call
-- of the same migrator, in the database that the first one left when it returned, returns the same
-- version and changes nothing, neither the ledger nor any other table, and no migration's body is
-- executed. The migrator holds INSERT on the ledger.
pub apply_again :
    (conn : Conn) (p : Principal) (role : Option String) (db db' : Db) (v : ℕ)
    → apply_migrations conn p none role db ≡ (ok v, db')
    → p.may_insert role ≡ true
    → (v ≡ latest_version) × (apply_migrations conn p none role db' ≡ (ok v, db'))
unfolding apply_migrations read_schema_version ◌>>=◌
apply_again conn p role db db' v h may =
    let (live, t, asserted, seen, later) = asserting conn p role db db' v h in
    let (given, current) = applied-Current conn p live t db' v seen later in
    let again = assert-again p role db t db' asserted may (Current-exists conn db' current) in
    let unchanged : apply_from conn p 5 (some 5) db' ≡ (ok v, db') =
      rw given (again_from conn p db' current) in
    (
      given,
      rw again (subst (λ l. apply_from conn p 5 l db' ≡ (ok v, db')) (sym current.0) unchanged),
    )
