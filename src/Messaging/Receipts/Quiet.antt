-- ===== src/Messaging/Receipts/Quiet.antt =====
-- messaging/receipts.py: what a function does beside its statement keeps what the tables satisfy.
use workflow_runtime_core.Base.{ℕ, String, Option, none, some, List, inl, inr, Bool-cases}
use workflow_runtime_core.Exec.{Result, ok, err, Exec, bind-keeps, settle}
use workflow_runtime_core.Json.{Fields}
use workflow_runtime_core.Db.{Db, Conn, raise_if-keeps}
use workflow_runtime_core.Registry.History.{commit}
use workflow_runtime_core.Schema.{require_compatible_schema, require_live, read_schema_version}
use workflow_runtime_core.Migrations.Ledger.{verify_ledger, is_verified, core_namespace, migrations}
use workflow_runtime_core.Messaging.Receipts.Ops
use workflow_runtime_core.Messaging.Receipts.Ops.{
  ReceiptActor, ActorKind, service, human, make_actor, audited, change, changes, require_receipts,
}

-- The statements that only read, and the end of a transaction.
module _ (P : Db → Type 0) where
  pub verify-keeps :
      (conn : Conn) (through : Option ℕ) (db : Db)
      → P db
      → P (verify_ledger conn core_namespace (migrations conn) through db).1
  unfolding verify_ledger
  verify-keeps conn through db h =
      elim (Bool-cases (is_verified conn core_namespace (migrations conn) through db.ledger)) [
        | inl e ↦ rw e h
        | inr e ↦ rw e h
      ]

  pub live-keeps :
      (conn : Conn) (minimum maximum : ℕ) (live : Option ℕ) (db : Db)
      → P db
      → P (require_live conn minimum maximum live db).1
  unfolding require_live
  live-keeps conn minimum maximum none db h = h
  live-keeps conn minimum maximum (some live) db h = raise_if-keeps P _ _ _ db h λ e.
      bind-keeps P _ _ db (verify-keeps conn (some live) db h)
        λ a done. verify-keeps conn (some live) db h

  pub schema-keeps :
      (conn : Conn) (minimum maximum : ℕ) (db : Db)
      → P db
      → P (require_compatible_schema conn minimum maximum db).1
  unfolding require_compatible_schema read_schema_version
  schema-keeps conn minimum maximum db h =
      bind-keeps P _ _ db h λ live done. live-keeps conn minimum maximum live db h

  pub actor-keeps :
      (kind : ActorKind) (subject : String) (db : Db) → P db → P (make_actor kind subject db).1
  unfolding make_actor
  actor-keeps kind subject db h = raise_if-keeps P _ _ _ db h λ e. h

  pub audited-keeps :
      (actor : ReceiptActor) (reason : String) (evidence : Option Fields) (db : Db)
      → P db
      → P (audited actor reason evidence db).1
  unfolding audited
  audited-keeps actor reason evidence db h =
      raise_if-keeps P _ _ _ db h
        λ e. raise_if-keeps P _ _ _ db h λ f. raise_if-keeps P _ _ _ db h λ g. h

  pub selection-keeps :
      (ids : Option (List String)) (db : Db) → P db → P (Ops.message_selection ids db).1
  unfolding Ops.message_selection
  selection-keeps none db h = h
  selection-keeps (some ids) db h =
      raise_if-keeps P _ _ _ db h
        λ e. raise_if-keeps P _ _ _ db h λ f. raise_if-keeps P _ _ _ db h λ g. h

  pub settle-keeps :
      {A : Type 0} (before : Db) (r : Result A) (db : Db)
      → P before
      → P db
      → P (settle before r db).1
  settle-keeps before (ok a) db h k = k
  settle-keeps before (err e) db h k = h

  pub commit-keeps : {A : Type 0} (m : Exec Db A) (db : Db) → P db → P (m db).1 → P (commit m db)
  unfolding commit
  commit-keeps m db h k = settle-keeps db (m db).0 (m db).1 h k
