-- ===== src/Executor/Run/Queued.antt =====
-- executor/runner.py, _finalize: the replies are in the outbox.
use workflow_runtime_core.Base.{
  ◌+◌, String, ◌≡◌, refl, sym, ap, ◌∙◌, inl, inr, Bool, true, Option, none, some, List, [], ◌∷◌,
  ◌++◌, arith, Bool-cases, str_eq_refl, is_some, any, any-append, All, find?, is_some-find,
}
use mathlib.Core.Path.{subst}
use workflow_runtime_core.Exec.{ok, ◌>>=◌, bind-ok, bind-keeps}
use workflow_runtime_core.Db.{Db, Conn, OutboxRecord, at_least}
use workflow_runtime_core.Messaging.Outbox.{
  OutboxMessage, has_key, has_outbox_id, missing_run, message, new_message, insert_message, enqueue,
  enqueue_all,
}

-- The message has a row in the outbox.
abbrev pub IsQueued : OutboxMessage → Db → Type 0
IsQueued m db = any (has_key m.service_namespace m.message_id) db.outbox ≡ true

module _ (m : OutboxMessage) where
  appended-IsQueued :
      (r : OutboxRecord) (db : Db)
      → IsQueued m db
      → IsQueued m (record db { outbox = db.outbox ++ r ∷ [] })
  appended-IsQueued r db h =
      any-append (has_key m.service_namespace m.message_id) db.outbox (r ∷ []) ∙ (rw h)

  insert-IsQueued :
      (conn : Conn) (id : String) (new : OutboxMessage) (o : Option OutboxRecord) (db : Db)
      → IsQueued m db
      → IsQueued m (insert_message conn id new o db).1
  unfolding insert_message
  insert-IsQueued conn id new (some r) db h = h
  insert-IsQueued conn id new none db h = elim (Bool-cases (any (has_outbox_id id) db.outbox)) [
    | inl e ↦ rw e h
    | inr e ↦ elim (Bool-cases (missing_run new.run_id db)) [
      | inl t ↦ rw (e, t) h
      | inr t ↦ rw (e, t) (appended-IsQueued (new_message conn id new) db h)
    ]
  ]

  enqueue-IsQueued :
      (conn : Conn) (new : OutboxMessage) (db : Db)
      → IsQueued m db
      → IsQueued m (enqueue conn new db).1
  unfolding enqueue ◌>>=◌
  enqueue-IsQueued conn new db h = elim (Bool-cases (at_least 3 db.version)) [
    | inl e ↦ rw e (insert-IsQueued conn _ new _ (record db { minted = db.minted + 1 }) h)
    | inr e ↦ rw e h
  ]

  enqueue_all-IsQueued :
      (conn : Conn) (messages : List OutboxMessage) (db : Db)
      → IsQueued m db
      → IsQueued m (enqueue_all conn messages db).1
  unfolding enqueue_all
  enqueue_all-IsQueued conn [] db h = h
  enqueue_all-IsQueued conn (new ∷ messages) db h =
      let first = enqueue-IsQueued conn new db h in
      bind-keeps (IsQueued m) _ _ db first λ id done.
        let rest = enqueue_all-IsQueued conn messages _ first in
        bind-keeps (IsQueued m) _ _ _ rest λ ids more. rest

found-any :
    {A : Type 0} (p : A → Bool) (rows : List A) (a : A) → find? p rows ≡ some a → any p rows ≡ true
found-any p rows a e = sym (is_some-find p rows) ∙ ap is_some e

inserted-IsQueued :
    (conn : Conn) (id : String) (m : OutboxMessage) (o : Option OutboxRecord) (db db' : Db)
    (got : String)
    → message m.service_namespace m.message_id db ≡ o
    → insert_message conn id m o db ≡ (ok got, db')
    → IsQueued m db'
unfolding insert_message message
inserted-IsQueued conn id m (some r) db db' got found h =
    subst (IsQueued m) (ap (λ p. p.1) h) (found-any _ db.outbox r found)
inserted-IsQueued conn id m none db db' got found h =
    elim (Bool-cases (any (has_outbox_id id) db.outbox)) [
      | inl e ↦ cc (rw e at h)
      | inr e ↦ elim (Bool-cases (missing_run m.run_id db)) [
        | inl t ↦ cc (rw (e, t) at h)
        | inr t ↦
            subst (IsQueued m) (ap (λ p. p.1) (rw (e, t) at h)) (new_one (any _ db.outbox) refl)
      ]
    ]
  where
    new_one :
        (b : Bool)
        → any (has_key m.service_namespace m.message_id) db.outbox ≡ b
        → IsQueued m (record db { outbox = db.outbox ++ new_message conn id m ∷ [] })
    new_one b e =
        any-append (has_key m.service_namespace m.message_id) db.outbox (new_message conn id m ∷ [])
        ∙ (rw (e, str_eq_refl m.service_namespace, str_eq_refl m.message_id) (ground arith))

enqueued-IsQueued :
    (conn : Conn) (m : OutboxMessage) (db db' : Db) (id : String)
    → enqueue conn m db ≡ (ok id, db')
    → IsQueued m db'
unfolding enqueue ◌>>=◌ message
enqueued-IsQueued conn m db db' id h = elim (Bool-cases (at_least 3 db.version)) [
  | inl v ↦
      inserted-IsQueued conn (conn.uuid4 db.minted) m _ (record db { minted = db.minted + 1 }) db'
        id refl (rw v at h)
  | inr v ↦ cc (rw v at h)
]

-- What `enqueue_all` leaves when it returns.
pub enqueue_all-All :
    (conn : Conn) (messages : List OutboxMessage) (db db' : Db) (ids : List String)
    → enqueue_all conn messages db ≡ (ok ids, db')
    → All (λ m. IsQueued m db') messages
unfolding enqueue_all
enqueue_all-All conn [] db db' ids h = tt
enqueue_all-All conn (m ∷ messages) db db' ids h =
    let (id, first, rest) = bind-ok _ _ _ _ _ h in
    let (others, more, last) = bind-ok _ _ _ _ _ rest in
    let after = enqueue_all conn messages (enqueue conn m db).1 in
    let now : IsQueued m (enqueue conn m db).1 =
      enqueued-IsQueued conn m db _ id (λ i. (first i, (enqueue conn m db).1)) in
    subst (λ s. IsQueued m s × All (λ n. IsQueued n s) messages) (ap (λ p. p.1) last)
      (
        enqueue_all-IsQueued m conn messages _ now,
        enqueue_all-All conn messages _ _ others (λ i. (more i, after.1)),
      )
