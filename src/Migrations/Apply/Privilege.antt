-- ===== src/Migrations/Apply/Privilege.antt =====
-- A session that may not migrate does not find out that there is nothing to do.
use workflow_runtime_core.Base.{
  ℕ, String, ◌≡◌, ◌≢◌, refl, inl, inr, Bool, true, false, Option, none, some, List, Bool-cases,
}
use workflow_runtime_core.Exec.{Result, ok, Exec, Error, raise_if, ◌>>=◌, migration_error}
use workflow_runtime_core.Db.{Db, Conn, Migration}
use workflow_runtime_core.Migrations.Apply.{
  Principal, is_identifier, set_role, may_write, assert_may_migrate, apply_migrations,
}
use workflow_runtime_core.Migrations.App.{apply_app_migrations}

-- The block raised, and changed nothing.
abbrev pub Refused : {A : Type 0} → Db → Result A × Db → Type 0
Refused {A} db o = ((a : A) → o.0 ≢ ok a) × (o.1 ≡ db)

guard-Refused :
    {A : Type 0} (b : Bool) (e : Error) (f : Unit → Exec Db A) (db : Db)
    → Refused db (f tt db)
    → Refused db ((raise_if b e >>= f) db)
unfolding ◌>>=◌
guard-Refused true e f db h = (λ a g. cc g, refl)
guard-Refused false e f db h = h

assert-Refused :
    {A : Type 0} (principal : Principal) (owner_role : Option String) (f : Unit → Exec Db A)
    (db : Db)
    → may_write principal owner_role db ≡ false
    → Refused db ((assert_may_migrate principal owner_role >>= f) db)
unfolding assert_may_migrate ◌>>=◌ set_role
assert-Refused principal none f db e = rw e (λ a g. cc g, refl)
assert-Refused principal (some role) f db e = elim (Bool-cases (is_identifier role)) [
  | inl i ↦ elim (Bool-cases (principal.is_member role)) [
    | inl m ↦ rw (i, m, e) (λ a g. cc g, refl)
    | inr m ↦ rw (i, m) (λ a g. cc g, refl)
  ]
  | inr i ↦ rw i (λ a g. cc g, refl)
]

-- A session without the privilege never reports success: where the current role, once it is taken
-- on, holds neither INSERT on an existing ledger nor CREATE where there is none, both migrators
-- raise and change nothing, whatever they are asked for, also when the schema is current and
-- there is nothing to do.
pub unprivileged-Refused :
    (conn : Conn) (principal : Principal) (owner_role : Option String) (target : Option ℕ)
    (namespace : String) (chain : List Migration) (db : Db)
    → may_write principal owner_role db ≡ false
    → Refused db (apply_migrations conn principal target owner_role db)
      × Refused db (apply_app_migrations conn principal namespace chain owner_role db)
unfolding apply_migrations apply_app_migrations
unprivileged-Refused conn principal owner_role target namespace chain db e = (
  guard-Refused _ migration_error _ db (assert-Refused principal owner_role _ db e),
  guard-Refused _ migration_error _ db
      (guard-Refused _ migration_error _ db (assert-Refused principal owner_role _ db e)),
)
