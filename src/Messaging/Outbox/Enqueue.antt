-- ===== src/Messaging/Outbox/Enqueue.antt =====
-- `enqueue`: a message is recorded once.
use workflow_runtime_core.Base.{
  ◌+◌, String, ◌≡◌, refl, sym, ap, ◌∙◌, inl, inr, true, false, Option, none, some, [], ◌∷◌, ◌++◌,
  arith, Bool-cases, str_eq_refl, is_some, find?, any, find-append, is_some-find,
}
use workflow_runtime_core.Exec.{ok, ◌>>=◌}
use workflow_runtime_core.Db.{Db, Conn, OutboxRecord, at_least}
use workflow_runtime_core.Messaging.Outbox.{
  OutboxMessage, has_key, message, new_message, insert_message, enqueue,
}

id_of : Option OutboxRecord → Option String
id_of none = none
id_of (some m) = some m.outbox_id

module _ (m : OutboxMessage) where
  -- The id of the row of the message.
  recorded : Db → Option String
  unfolding id_of
  recorded db = id_of (message m.service_namespace m.message_id db)

  appended :
      (db : Db) (r : OutboxRecord)
      → message m.service_namespace m.message_id db ≡ none
      → has_key m.service_namespace m.message_id r ≡ true
      → recorded (record db { outbox = db.outbox ++ r ∷ [] }) ≡ some r.outbox_id
  unfolding recorded id_of message
  appended db r fresh same =
      let p = has_key m.service_namespace m.message_id in
      let missing : any p db.outbox ≡ false = sym (is_some-find p db.outbox) ∙ ap is_some fresh in
      let first : find? p (db.outbox ++ r ∷ []) ≡ some r =
        find-append p db.outbox (r ∷ []) ∙ (rw missing (rw same)) in
      ap id_of first

  insert_lem :
      (conn : Conn) (outbox_id id : String) (db db' : Db) (o : Option OutboxRecord)
      → message m.service_namespace m.message_id db ≡ o
      → insert_message conn outbox_id m o db ≡ (ok id, db')
      → recorded db' ≡ some id
  unfolding insert_message recorded id_of message
  insert_lem conn outbox_id id db db' (some r) found h = cc (found, h)
  insert_lem conn outbox_id id db db' none found h =
      let t =
        appended db (new_message conn outbox_id m) found
          (ground (arith, str_eq_refl m.service_namespace, str_eq_refl m.message_id)) in
      ground (arith, h, t)

  again_lem :
      (conn : Conn) (outbox_id id : String) (db : Db) (o : Option OutboxRecord)
      → id_of o ≡ some id
      → insert_message conn outbox_id m o db ≡ (ok id, db)
  unfolding insert_message id_of
  again_lem conn outbox_id id db none h = cc h
  again_lem conn outbox_id id db (some r) h = cc h

-- In the database that an `enqueue` leaves when it returns an outbox id, an `enqueue` under
-- the same namespace and message id, from any session and whatever else it carries, returns
-- the same outbox id and changes no table, where the messaging tables are there.
pub enqueue_once :
    (conn conn' : Conn) (m m' : OutboxMessage) (db db' : Db) (id : String)
    → m'.service_namespace ≡ m.service_namespace
    → m'.message_id ≡ m.message_id
    → at_least 3 db'.version ≡ true
    → enqueue conn m db ≡ (ok id, db')
    → enqueue conn' m' db' ≡ (ok id, record db' { minted = db'.minted + 1 })
unfolding enqueue ◌>>=◌ recorded message
enqueue_once conn conn' m m' db db' id same_namespace same_id live h =
    elim (Bool-cases (at_least 3 db.version)) [
      | inl v ↦
          let t =
            insert_lem m conn (conn.uuid4 db.minted) id (record db { minted = db.minted + 1 }) db'
              (message m.service_namespace m.message_id db) refl (rw v at h) in
          let t' : recorded m' db' ≡ some id = rw (same_namespace, same_id) t in
          rw live (
            again_lem m' conn' (conn'.uuid4 db'.minted) id (record db' { minted = db'.minted + 1 })
              _ t')
      | inr v ↦ cc (rw v at h)
    ]
