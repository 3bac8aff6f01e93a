-- ===== src/Exec/Defs.antt =====
-- Statements of a database session that may raise (exceptions.py and psycopg's errors), as
-- functions from the database to a result and the database after it.
use workflow_runtime_core.Base.{Bool, true, false}

-- The exceptions that the modelled code raises or lets through. Message texts are left out.
pub data Error : Type 0 where
  registry_error : Error
  schema_version_mismatch : Error
  active_attempt_exists : Error
  retry_not_allowed : Error
  execution_metadata_conflict : Error
  unique_violation : Error
  foreign_key_violation : Error
  undefined_table : Error
  key_error : Error
  envelope_error : Error
  envelope_too_large : Error
  runtime_error : Error
  value_error : Error
  migration_error : Error
  migration_checksum_mismatch : Error
  migration_role_required : Error
  auth_configuration_error : Error
  sql_error : Error
  in_failed_transaction : Error

pub data Result {ℓ} (A : Type ℓ) : Type ℓ where
  ok : A → Result A
  err : Error → Result A

abbrev pub Exec {ℓ} : Type ℓ → Type ℓ → Type ℓ
Exec S A = S → Result A × S

module _ {ℓ} {S A : Type ℓ} where
  abbrev pub pure : A → Exec S A
  pure a s = (ok a, s)

  abbrev pub raise : Error → Exec S A
  raise e s = (err e, s)

  abbrev pub gets : (S → A) → Exec S A
  gets f s = (ok (f s), s)

  abbrev pub settle : S → Result A → S → Result A × S
  settle before (ok a) s = (ok a, s)
  settle before (err e) s = (err e, before)

  -- `with conn.transaction():`, and `with conn:` of `registry.connect`: what the block wrote is
  -- undone if it raises.
  abbrev pub transaction : Exec S A → Exec S A
  transaction m s = let (r, s') = m s in settle s r s'

module _ {ℓ} {S A B : Type ℓ} where
  abbrev pub continue : Result A → (A → Exec S B) → Exec S B
  continue (ok a) f s = f a s
  continue (err e) f s = (err e, s)

  infixl 5 ◌>>=◌ ◌>>◌
  -- Shut, so that the rules for invariants see where a block is put together.
  unfoldable pub ◌>>=◌ : Exec S A → (A → Exec S B) → Exec S B
  ◌>>=◌ m f s = let (r, s') = m s in continue r f s'

  abbrev pub ◌>>◌ : Exec S A → Exec S B → Exec S B
  m >> n = m >>= λ _. n

module _ {ℓ} {S : Type ℓ} where
  -- A test that raises when it holds.
  abbrev pub raise_if : Bool → Error → Exec S Unit
  raise_if true e s = (err e, s)
  raise_if false e s = (ok tt, s)

  abbrev pub modify : (S → S) → Exec S Unit
  modify f s = (ok tt, f s)
