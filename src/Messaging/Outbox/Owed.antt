-- ===== src/Messaging/Outbox/Owed.antt =====
-- A message that is owed stays owed until it is delivered.
use workflow_runtime_core.Base.{
  ℕ, ◌+◌, String, ◌≡◌, refl, sym, ap, ◌∙◌, inl, inr, Bool, true, false, Option, none, some, List,
  [], ◌∷◌, ◌++◌, arith, Bool-cases, is_some, find?, any, update, delete, hit, find-update,
  find-delete, find-append, is_some-find,
}
use mathlib.Core.Path.{subst}
use workflow_runtime_core.Exec.{Result, ◌>>=◌}
use workflow_runtime_core.Db.{Db, Conn, OutboxRecord, at_least}
use workflow_runtime_core.Messaging.Outbox.{
  OutboxMessage, is_delivered, has_key, has_outbox_id, missing_run, new_message, insert_message,
  enqueue, is_among, due, publish_claimed, claim_due, is_held, mark_failed, require_messaging,
}
use workflow_runtime_core.Messaging.Outbox.Upkeep.{
  stranded, reschedule, reconcile_stale, is_purgeable, purge_delivered,
}

-- The statements of outbox.py other than `mark_delivered` that write.
pub data OutboxStep : Type 0 where
  enqueue_step : OutboxMessage → OutboxStep
  claim_step : (OutboxRecord → Bool) → String → String → ℕ → ℕ → OutboxStep
  fail_step : String → String → String → ℕ → OutboxStep
  reconcile_step : (OutboxRecord → Bool) → ℕ → OutboxStep
  purge_step : String → ℕ → Bool → OutboxStep

unfoldable pub take_step : Conn → OutboxStep → Db → Db
take_step conn (enqueue_step m) db = (enqueue conn m db).1
take_step conn (claim_step locked namespace owner seconds limit) db =
    (claim_due conn locked namespace owner seconds limit db).1
take_step conn (fail_step outbox_id owner error attempts) db =
    (mark_failed conn outbox_id owner error attempts db).1
take_step conn (reconcile_step locked limit) db = (reconcile_stale conn locked limit db).1
take_step conn (purge_step namespace days dry_run) db =
    (purge_delivered conn namespace days dry_run db).1

unfoldable pub take_steps : List (Conn × OutboxStep) → Db → Db
take_steps [] db = db
take_steps ((conn, step) ∷ steps) db = take_steps steps (take_step conn step db)

-- The message `m` is there, undelivered, with its content.
abbrev pub IsOwing : OutboxRecord → Option OutboxRecord → Type 0
IsOwing m none = ⊥
IsOwing m (some n) =
    (is_delivered n.status ≡ false)
    × (n.outbox_id ≡ m.outbox_id)
    × (n.destination ≡ m.destination)
    × (n.payload ≡ m.payload)

module _ (namespace message_id : String) (m : OutboxRecord) where
  abbrev pub Owed : Db → Type 0
  Owed db = IsOwing m (find? (has_key namespace message_id) db.outbox)

  updated :
      (p : OutboxRecord → Bool) (f : OutboxRecord → OutboxRecord) (db : Db)
      → ((n : OutboxRecord) → has_key namespace message_id (f n) ≡ has_key namespace message_id n)
      → ((n : OutboxRecord) → IsOwing m (some n) → IsOwing m (some (f n)))
      → Owed db
      → Owed (record db { outbox = update p f db.outbox })
  updated p f db same keeps h =
      subst (IsOwing m) (sym (find-update (has_key namespace message_id) p f db.outbox same))
        (go (find? (has_key namespace message_id) db.outbox) h)
    where
      go : (o : Option OutboxRecord) → IsOwing m o → IsOwing m (hit p f o)
      go none k = k
      go (some n) k = elim (Bool-cases (p n)) [ inl e ↦ rw e (keeps n k) | inr e ↦ rw e k ]

  owed-any :
      (rows : List OutboxRecord) (o : Option OutboxRecord)
      → find? (has_key namespace message_id) rows ≡ o
      → IsOwing m o
      → any (has_key namespace message_id) rows ≡ true
  owed-any rows none e h = absurd h
  owed-any rows (some n) e h = sym (is_some-find (has_key namespace message_id) rows) ∙ ap is_some e

  appended :
      (r : OutboxRecord) (db : Db) → Owed db → Owed (record db { outbox = db.outbox ++ r ∷ [] })
  appended r db h =
      subst (IsOwing m)
        (sym (
          find-append (has_key namespace message_id) db.outbox (r ∷ [])
          ∙ (rw (owed-any db.outbox _ refl h))))
        h

  purged :
      (p : OutboxRecord → Bool) (db : Db)
      → ((n : OutboxRecord) → is_delivered n.status ≡ false → p n ≡ false)
      → Owed db
      → Owed (record db { outbox = delete p db.outbox })
  purged p db spares h = go (find? (has_key namespace message_id) db.outbox) refl h
    where
      go :
          (o : Option OutboxRecord)
          → find? (has_key namespace message_id) db.outbox ≡ o
          → IsOwing m o
          → Owed (record db { outbox = delete p db.outbox })
      go none e k = absurd k
      go (some n) e k =
          subst (IsOwing m)
            (sym (find-delete (has_key namespace message_id) p db.outbox n e (spares n k.0))) k

  behind :
      {A : Type 0} (f : Unit → Db → Result A × Db) (db : Db)
      → Owed db
      → Owed (f tt db).1
      → Owed ((require_messaging >>= f) db).1
  unfolding ◌>>=◌
  behind f db h k = elim (Bool-cases (at_least 3 db.version)) [ inl e ↦ rw e k | inr e ↦ rw e h ]

  inserted :
      (conn : Conn) (id : String) (new : OutboxMessage) (o : Option OutboxRecord) (db : Db)
      → Owed db
      → Owed (insert_message conn id new o db).1
  unfolding insert_message
  inserted conn id new (some n) db h = h
  inserted conn id new none db h = elim (Bool-cases (any (has_outbox_id id) db.outbox)) [
    | inl e ↦ rw e h
    | inr e ↦ elim (Bool-cases (missing_run new.run_id db)) [
      | inl t ↦ rw (e, t) h
      | inr t ↦ rw (e, t) (appended (new_message conn id new) db h)
    ]
  ]

  take_step-Owed :
      (conn : Conn) (step : OutboxStep) (db : Db) → Owed db → Owed (take_step conn step db)
  unfolding take_step enqueue claim_due mark_failed reconcile_stale purge_delivered
  take_step-Owed conn (enqueue_step new) db h =
      behind _ db h
        (inserted conn (conn.uuid4 db.minted) new _ (record db { minted = db.minted + 1 }) h)
  take_step-Owed conn (claim_step locked ns owner seconds limit) db h = behind _ db h (
      updated (is_among (due conn locked ns limit db.outbox)) (publish_claimed conn owner seconds)
        db (λ n. refl) (λ n k. (refl, k.1, k.2, k.3)) h)
  take_step-Owed conn (fail_step id owner error attempts) db h = behind _ db h (
      updated (is_held id owner) _ (record db { drawn = db.drawn + 1 }) (λ n. refl)
        (λ n k. (refl, k.1, k.2, k.3)) h)
  take_step-Owed conn (reconcile_step locked limit) db h = behind _ db h (
      updated (is_among (stranded conn locked limit db.outbox)) (reschedule conn) db (λ n. refl)
        (λ n k. (refl, k.1, k.2, k.3)) h)
  take_step-Owed conn (purge_step ns days true) db h = behind _ db h h
  take_step-Owed conn (purge_step ns days false) db h =
      behind _ db h (purged (is_purgeable conn ns days) db (λ n e. ground (arith, e)) h)

  -- Through any statements of the outbox by any sessions, in any order, other than
  -- `mark_delivered`, a message that is owed stays in the table, undelivered, under the same
  -- outbox id and with the same destination and payload.
  pub owed-survives :
      (steps : List (Conn × OutboxStep)) (db : Db) → Owed db → Owed (take_steps steps db)
  unfolding take_steps
  owed-survives [] db h = h
  owed-survives ((conn, step) ∷ steps) db h =
      owed-survives steps (take_step conn step db) (take_step-Owed conn step db h)
