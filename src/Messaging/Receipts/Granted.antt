-- ===== src/Messaging/Receipts/Granted.antt =====
-- What a transition that was granted went through.
use workflow_runtime_core.Base.{
  ◌+◌, String, ◌≡◌, ◌≢◌, not, if◌then◌else◌, refl, sym, ap, Bool, true, false, Option, none, some,
  is_some, any,
}
use mathlib.Core.Path.{subst}
use workflow_runtime_core.Exec.{Result, ok, bind-ok, ok-injective}
use workflow_runtime_core.Json.{Fields}
use workflow_runtime_core.Db.{Db, Conn, DeliveryReceipt}
use workflow_runtime_core.Messaging.Receipts.Sql.{
  Audit, has_version, write_row, change_row, execute_operation, receipt,
}
use workflow_runtime_core.Messaging.Receipts.Transition.{Key, Transition, predicate, moved}
use workflow_runtime_core.Messaging.Receipts.Ops.{
  ReceiptActor, service, make_actor, audited, change, changes, require_receipts,
}
use workflow_runtime_core.Messaging.Receipts.Settle.{worker}
use workflow_runtime_core.Messaging.Receipts.Quiet.{audited-keeps, schema-keeps, actor-keeps}
use workflow_runtime_core.Messaging.Receipts.Rows.{receipt-write}

-- The transition moved the row of the key.
abbrev pub Granted : Conn → Key → Transition → Db → DeliveryReceipt → Db → Type 0
Granted conn key t db row db' =
    (p : DeliveryReceipt) × (receipt key db ≡ some p)
    × (predicate conn.now t p ≡ true)
    × (row ≡ moved conn.now t p)
    × (receipt key db' ≡ some (moved conn.now t p))

-- Which branch was taken, by its outcome.
third_branch :
    {A : Type 0} (b c : Bool) (x y z w : A)
    → x ≢ w
    → y ≢ w
    → (if not b then x else if c then y else z) ≡ w
    → (b ≡ true) × (z ≡ w)
third_branch true true x y z w no_x no_y e = absurd (no_y e)
third_branch true false x y z w no_x no_y e = (refl, e)
third_branch false c x y z w no_x no_y e = absurd (no_x e)

module _ (conn : Conn) (key : Key) (t : Transition) (db : Db) where
  change_row-Granted :
      (audit : Audit) (o : Option DeliveryReceipt) (row : DeliveryReceipt) (db' : Db)
      → receipt key db ≡ o
      → change_row conn key t audit o db ≡ (ok (some row), db')
      → Granted conn key t db row db'
  unfolding change_row
  change_row-Granted audit none row db' found e = cc e
  change_row-Granted audit (some p) row db' found e =
      let (holds, wrote) =
        third_branch (predicate conn.now t p)
          (any (has_version key (p.event_version + 1)) db.receipt_events) _ _ _ _ (λ f. cc f)
          (λ f. cc f) e in
      granted p found holds wrote
    where
      granted :
          (p : DeliveryReceipt)
          → receipt key db ≡ some p
          → predicate conn.now t p ≡ true
          → ◌≡◌ {A = Result (Option DeliveryReceipt) × Db}
              (ok (some (moved conn.now t p)), write_row conn key t audit p db)
              (ok (some row), db')
          → Granted conn key t db row db'
      granted p found holds e =
          let after : receipt key db' ≡ some (moved conn.now t p) =
            subst (λ s. receipt key s ≡ some (moved conn.now t p)) (ap (λ o. o.1) e)
              (receipt-write conn key t audit p db found) in
          let same : moved conn.now t p ≡ row = cc (ok-injective (ap (λ o. o.0) e)) in
          (p, found, holds, sym same, after)

  operation-Granted :
      (audit : Audit) (row : DeliveryReceipt) (db' : Db)
      → execute_operation conn key t audit db ≡ (ok (some row), db')
      → Granted conn key t db row db'
  unfolding execute_operation
  operation-Granted audit row db' e = change_row-Granted audit (receipt key db) row db' refl e

  pub change-Granted :
      (actor : ReceiptActor) (reason : String) (evidence : Option Fields) (row : DeliveryReceipt)
      (db' : Db)
      → change conn key t actor reason evidence db ≡ (ok (some row), db')
      → Granted conn key t db row db'
  unfolding change
  change-Granted actor reason evidence row db' e =
      let (audit, done, rest) = bind-ok _ _ _ _ _ e in
      let (live, passed, last) = bind-ok _ _ _ _ _ rest in
      operation-Granted audit row db'
        (subst (λ s. execute_operation conn key t audit s ≡ (ok (some row), db')) unchanged last)
    where
      unchanged : (require_receipts conn (audited actor reason evidence db).1).1 ≡ db
      unchanged =
          schema-keeps (λ s. s ≡ db) conn 5 _ _
            (audited-keeps (λ s. s ≡ db) actor reason evidence db refl)

  changes-Granted :
      (actor : ReceiptActor) (reason : String) (evidence : Option Fields) (db' : Db)
      → changes conn key t actor reason evidence db ≡ (ok true, db')
      → (row : DeliveryReceipt) × Granted conn key t db row db'
  changes-Granted actor reason evidence db' e =
      let (o, hit, rest) = bind-ok _ _ _ _ _ e in go o hit (ap (λ p. p.0) rest) (ap (λ p. p.1) rest)
    where
      go :
          (o : Option DeliveryReceipt)
          → (change conn key t actor reason evidence db).0 ≡ ok o
          → ok (is_some o) ≡ ok true
          → (change conn key t actor reason evidence db).1 ≡ db'
          → (row : DeliveryReceipt) × Granted conn key t db row db'
      go none hit yes_ state = cc (ok-injective yes_)
      go (some row) hit yes_ state =
          (row, change-Granted actor reason evidence row db' (λ i. (hit i, state i)))

-- A worker's transition, whose actor is checked first.
pub worker-Granted :
    (conn : Conn) (key : Key) (owner : String) (t : Transition) (reason : String)
    (evidence : Option Fields) (db db' : Db)
    → worker conn key owner t reason evidence db ≡ (ok true, db')
    → (row : DeliveryReceipt) × Granted conn key t db row db'
unfolding worker
worker-Granted conn key owner t reason evidence db db' e =
    let (actor, done, rest) = bind-ok _ _ _ _ _ e in
    changes-Granted conn key t db actor reason evidence db'
      (subst (λ s. changes conn key t actor reason evidence s ≡ (ok true, db')) unchanged rest)
  where
    unchanged : (make_actor service owner db).1 ≡ db
    unchanged = actor-keeps (λ s. s ≡ db) service owner db refl
