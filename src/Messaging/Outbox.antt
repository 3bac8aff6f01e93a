-- ===== src/Messaging/Outbox.antt =====
-- messaging/outbox.py: the transactional outbox.
pub mod Upkeep
pub mod Enqueue
pub mod Fenced
pub mod Claimed
pub mod Owed
use workflow_runtime_core.Base.{
  ℕ, ◌+◌, ◌*◌, ◌-◌, String, Bool, true, false, not, ◌&&◌, Option, none, some, List, [], ◌∷◌, ◌++◌,
  map, ltb, leb, str_eq, is_text, or_else, length, take, select, find?, update, delete, any,
  sort_by, min, if◌then◌else◌,
}
use workflow_runtime_core.Exec.{
  ok, err, Exec, foreign_key_violation, unique_violation, undefined_table, raise_if, ◌>>=◌, ◌>>◌,
  pure,
}
use workflow_runtime_core.Json.{Fields}
use workflow_runtime_core.Db.{
  Db, Conn, OutboxRecord, OutboxStatus, at_least, has_id, microseconds, microseconds_a_day,
}
use workflow_runtime_core.Registry.Record.{truncate}
use workflow_runtime_core.Messaging.Backoff.{next_delay_seconds}

pub record OutboxMessage : Type 0 where
  pub service_namespace : String
  pub message_id : String
  pub destination : String
  pub payload : Fields
  pub run_id : Option String

abbrev pub is_pending : OutboxStatus → Bool
is_pending OutboxStatus.pending = true
is_pending _ = false

abbrev pub is_publishing : OutboxStatus → Bool
is_publishing OutboxStatus.publishing = true
is_publishing _ = false

abbrev pub is_delivered : OutboxStatus → Bool
is_delivered OutboxStatus.delivered = true
is_delivered _ = false

-- status IN ('pending', 'failed')
abbrev pub is_waiting : OutboxStatus → Bool
is_waiting OutboxStatus.pending = true
is_waiting OutboxStatus.failed = true
is_waiting _ = false

-- The tables of migration 3, without which a statement on them fails.
abbrev pub require_messaging : Exec Db (Unit {0})
require_messaging db = raise_if (not (at_least 3 db.version)) undefined_table db

abbrev pub has_key : String → String → OutboxRecord → Bool
has_key namespace message_id m =
    str_eq m.service_namespace namespace && str_eq m.message_id message_id

abbrev pub has_outbox_id : String → OutboxRecord → Bool
has_outbox_id outbox_id m = str_eq m.outbox_id outbox_id

-- The row of one message.
unfoldable pub message : String → String → Db → Option OutboxRecord
message namespace message_id db = find? (has_key namespace message_id) db.outbox

abbrev pub missing_run : Option String → Db → Bool
missing_run none db = false
missing_run (some run_id) db = not (any (has_id run_id) db.runs)

abbrev pub new_message : Conn → String → OutboxMessage → OutboxRecord
new_message conn outbox_id m = record {
  outbox_id = outbox_id;
  service_namespace = m.service_namespace;
  message_id = m.message_id;
  destination = m.destination;
  payload = m.payload;
  run_id = m.run_id;
  status = OutboxStatus.pending;
  attempts = 0;
  next_attempt_at = conn.now;
  lease_owner = none;
  lease_expires_at = none;
  last_error = none;
  delivered_at = none;
  created_at = conn.now;
}

-- INSERT … ON CONFLICT (service_namespace, message_id) DO NOTHING, and the id of the row that is
-- there afterwards.
unfoldable pub insert_message : Conn → String → OutboxMessage → Option OutboxRecord → Exec Db String
insert_message conn outbox_id m (some existing) db = (ok existing.outbox_id, db)
insert_message conn outbox_id m none db =
    if any (has_outbox_id outbox_id) db.outbox
    then (err unique_violation, db)
    else if missing_run m.run_id db
    then (err foreign_key_violation, db)
    else (ok outbox_id, record db { outbox = db.outbox ++ new_message conn outbox_id m ∷ [] })

-- `str(uuid.uuid4())` is drawn before the statement.
unfoldable pub enqueue : Conn → OutboxMessage → Exec Db String
enqueue conn m = do
  require_messaging
  λ db.
      insert_message conn (conn.uuid4 db.minted) m (message m.service_namespace m.message_id db)
        (record db { minted = db.minted + 1 })

unfoldable pub enqueue_all : Conn → List OutboxMessage → Exec Db (List String)
enqueue_all conn [] = pure []
enqueue_all conn (m ∷ messages) = do
  outbox_id ← enqueue conn m
  rest ← enqueue_all conn messages
  pure (outbox_id ∷ rest)

abbrev pub is_due : Conn → String → OutboxRecord → Bool
is_due conn namespace m =
    str_eq m.service_namespace namespace && is_waiting m.status && leb m.next_attempt_at conn.now

-- The rows of `WITH due AS (… FOR UPDATE SKIP LOCKED LIMIT n)`; `locked` are the rows that another
-- session holds.
unfoldable pub due :
    Conn → (OutboxRecord → Bool) → String → ℕ → List OutboxRecord → List OutboxRecord
due conn locked namespace limit rows = take limit (
    sort_by (λ m n. leb m.next_attempt_at n.next_attempt_at)
      (select (λ m. is_due conn namespace m && not (locked m)) rows))

-- o.outbox_id = due.outbox_id
abbrev pub is_among : List OutboxRecord → OutboxRecord → Bool
is_among chosen m = any (has_outbox_id m.outbox_id) chosen

abbrev pub publish_claimed : Conn → String → ℕ → OutboxRecord → OutboxRecord
publish_claimed conn owner lease_seconds m = record m {
  status = OutboxStatus.publishing;
  attempts = m.attempts + 1;
  lease_owner = some owner;
  lease_expires_at = some (conn.now + lease_seconds * microseconds);
}

unfoldable pub claim_due :
    Conn → (OutboxRecord → Bool) → String → String → ℕ → ℕ → Exec Db (List OutboxRecord)
claim_due conn locked namespace owner lease_seconds limit = do
  require_messaging
  λ db.
      let chosen = due conn locked namespace limit db.outbox in
      let claimed = publish_claimed conn owner lease_seconds in
      (
        ok (map claimed (select (is_among chosen) db.outbox)),
        record db { outbox = update (is_among chosen) claimed db.outbox },
      )

-- WHERE outbox_id = %s AND lease_owner = %s AND status = 'publishing'
abbrev pub is_held : String → String → OutboxRecord → Bool
is_held outbox_id owner m =
    has_outbox_id outbox_id m && is_text m.lease_owner owner && is_publishing m.status

-- UPDATE event_outbox SET f WHERE p RETURNING outbox_id: whether a row was hit.
abbrev pub update_outbox : (OutboxRecord → Bool) → (OutboxRecord → OutboxRecord) → Exec Db Bool
update_outbox p f db = (ok (any p db.outbox), record db { outbox = update p f db.outbox })

abbrev pub deliver : Conn → OutboxRecord → OutboxRecord
deliver conn m = record m {
  status = OutboxStatus.delivered;
  delivered_at = some conn.now;
  lease_owner = none;
  lease_expires_at = none;
  last_error = none;
}

unfoldable pub mark_delivered : Conn → String → String → Exec Db Bool
mark_delivered conn outbox_id owner = do
  require_messaging
  update_outbox (is_held outbox_id owner) (deliver conn)

abbrev pub fail : Conn → String → ℕ → OutboxRecord → OutboxRecord
fail conn error delay m = record m {
  status = OutboxStatus.failed;
  last_error = some error;
  next_attempt_at = conn.now + delay;
  lease_owner = none;
  lease_expires_at = none;
}

unfoldable pub mark_failed : Conn → String → String → String → ℕ → Exec Db Bool
mark_failed conn outbox_id owner error attempts = do
  require_messaging
  λ db.
      update_outbox (is_held outbox_id owner)
        (fail conn (truncate 2000 error) (next_delay_seconds conn db.drawn attempts))
        (record db { drawn = db.drawn + 1 })
