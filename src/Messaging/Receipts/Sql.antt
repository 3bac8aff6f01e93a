-- ===== src/Messaging/Receipts/Sql.antt =====
-- messaging/_receipt_sql.py: the statements on delivery_receipts and delivery_receipt_events, and
-- the constraints of migration 5 that they can meet.
use workflow_runtime_core.Base.{
  ℕ, ◌+◌, String, Bool, true, not, ◌&&◌, ◌||◌, Option, none, some, List, [], ◌∷◌, ◌++◌, map, ltb,
  leb, ◌==◌, str_eq, or_else, take, select, find?, update, any, sort_by, if◌then◌else◌,
}
use workflow_runtime_core.Exec.{ok, err, Exec, unique_violation}
use workflow_runtime_core.Json.{Fields}
use workflow_runtime_core.Db.{Db, Conn, DeliveryReceipt, ReceiptStatus, ReceiptEvent}
use workflow_runtime_core.Messaging.Receipts.Transition.{
  Key, has_receipt_key, of_receipt, Transition, transition_name, is_sending, is_open,
  is_lapsed_lease, predicate, moved,
}

pub record Audit : Type 0 where
  pub actor_kind : String
  pub actor : String
  pub reason : String
  pub evidence : Fields

abbrev pub audit_event : ℕ → String → Option ReceiptStatus → Audit → DeliveryReceipt → ReceiptEvent
audit_event now transition from_status audit r = record {
  service_namespace = r.service_namespace;
  destination = r.destination;
  message_id = r.message_id;
  event_version = r.event_version;
  transition = transition;
  from_status = from_status;
  to_status = r.status;
  actor_kind = audit.actor_kind;
  actor = audit.actor;
  reason = audit.reason;
  evidence = audit.evidence;
  created_at = now;
}

-- UNIQUE (service_namespace, destination, message_id, event_version)
abbrev pub has_version : Key → ℕ → ReceiptEvent → Bool
has_version key version e = of_receipt key e && e.event_version == version

-- The database after the UPDATE of the row `p` and the INSERT of its audit row.
abbrev pub write_row : Conn → Key → Transition → Audit → DeliveryReceipt → Db → Db
write_row conn key t audit p db = record db {
  receipts = update (has_receipt_key key) (moved conn.now t) db.receipts;
  receipt_events =
      db.receipt_events
      ++ audit_event conn.now (transition_name t) (some p.status) audit (moved conn.now t p) ∷ [];
}

-- `Operation.query`, in one statement. What `audit` holds is within the checks of the table, since
-- `_audit` and `ReceiptActor` have bounded it.
unfoldable pub change_row :
    Conn → Key → Transition → Audit → Option DeliveryReceipt → Exec Db (Option DeliveryReceipt)
change_row conn key t audit none db = (ok none, db)
change_row conn key t audit (some p) db =
    if not (predicate conn.now t p)
    then (ok none, db)
    else if any (has_version key (p.event_version + 1)) db.receipt_events
    then (err unique_violation, db)
    else (ok (some (moved conn.now t p)), write_row conn key t audit p db)

-- SELECT * FROM delivery_receipts WHERE the key
unfoldable pub receipt : Key → Db → Option DeliveryReceipt
receipt key db = find? (has_receipt_key key) db.receipts

unfoldable pub execute_operation :
    Conn → Key → Transition → Audit → Exec Db (Option DeliveryReceipt)
execute_operation conn key t audit db = change_row conn key t audit (receipt key db) db

abbrev pub new_receipt : ℕ → Key → DeliveryReceipt
new_receipt now key = record {
  service_namespace = key.service_namespace;
  destination = key.destination;
  message_id = key.message_id;
  status = ReceiptStatus.pending;
  attempts = 0;
  next_attempt_at = now;
  provider_ref = none;
  lease_owner = none;
  lease_expires_at = none;
  last_error = none;
  updated_at = now;
  claim_epoch = 0;
  event_version = 1;
  effect_started_at = none;
  provider_ref_recorded_at = none;
}

-- The database after the INSERT of a receipt and its audit row.
abbrev pub insert_row : Conn → Key → Audit → Db → Db
insert_row conn key audit db = record db {
  receipts = db.receipts ++ new_receipt conn.now key ∷ [];
  receipt_events =
      db.receipt_events ++ audit_event conn.now "open" none audit (new_receipt conn.now key) ∷ [];
}

-- OPEN_QUERY
unfoldable pub open_row : Conn → Key → Audit → Option DeliveryReceipt → Exec Db (Unit {0})
open_row conn key audit (some existing) db = (ok tt, db)
open_row conn key audit none db =
    if any (has_version key 1) db.receipt_events
    then (err unique_violation, db)
    else (ok tt, insert_row conn key audit db)

abbrev is_selected : Option (List String) → String → Bool
is_selected none id = true
is_selected (some ids) id = any (str_eq id) ids

abbrev due_order : (String → String → Bool) → DeliveryReceipt → DeliveryReceipt → Bool
due_order text_le r s =
    ltb r.next_attempt_at s.next_attempt_at
    || (r.next_attempt_at == s.next_attempt_at && text_le r.message_id s.message_id)

-- CLAIM_DUE_QUERY, with the database's order of texts and the rows that another session holds.
unfoldable pub due_ids :
    Conn
    → (String → String → Bool)
    → (DeliveryReceipt → Bool)
    → String
    → String
    → Option (List String)
    → ℕ
    → Db
    → List String
due_ids conn text_le locked namespace destination selection limit db =
    map (λ r. r.message_id)
      (take limit (
        sort_by (due_order text_le) (
          select
            (λ r.
              str_eq r.service_namespace namespace
              && str_eq r.destination destination
              && is_open r.status
              && leb r.next_attempt_at conn.now
              && is_selected selection r.message_id
              && not (locked r))
            db.receipts)))

abbrev stale_order : (String → String → Bool) → DeliveryReceipt → DeliveryReceipt → Bool
stale_order text_le r s =
    let a = or_else r.lease_expires_at 0 in
    let b = or_else s.lease_expires_at 0 in ltb a b || (a == b && text_le r.message_id s.message_id)

-- STALE_QUERY
unfoldable pub stale_keys :
    Conn → (String → String → Bool) → (DeliveryReceipt → Bool) → String → ℕ → Db → List Key
stale_keys conn text_le locked namespace limit db =
    map
      (λ r. record {
        service_namespace = namespace;
        destination = r.destination;
        message_id = r.message_id;
      })
      (take limit (
        sort_by (stale_order text_le) (
          select
            (λ r.
              str_eq r.service_namespace namespace
              && is_sending r.status
              && is_lapsed_lease r.lease_expires_at conn.now
              && not (locked r))
            db.receipts)))
