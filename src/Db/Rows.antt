-- ===== src/Db/Rows.antt =====
-- The rows of the tables of migrations.py, and the connection with its clocks.
use workflow_runtime_core.Base.{ℕ, String, Option, List}
use workflow_runtime_core.Json.{Json, Fields}
use workflow_runtime_core.Models.{RunRecord}

-- A row of run_events.
pub record Event : Type 0 where
  pub event_id : ℕ
  pub run_id : String
  pub kind : String
  pub detail : Option Json
  pub created_at : ℕ

-- A row of event_inbox.
pub record InboxRow : Type 0 where
  pub inbox_id : String
  pub service_namespace : String
  pub source : String
  pub source_message_id : String
  pub run_id : String
  pub envelope_json : Fields
  pub received_at : ℕ

-- LAUNCH_STATES
pub data LaunchState : Type 0 where
  pending launching launched failed : LaunchState

-- A row of run_launches, and the `LaunchRecord` read from it.
pub record LaunchRecord : Type 0 where
  pub run_id : String
  pub launcher : String
  pub state : LaunchState
  pub params_hash : String
  pub attempts : ℕ
  pub next_attempt_at : ℕ
  pub lease_owner : Option String
  pub lease_expires_at : Option ℕ
  pub execution_ref : Option String
  pub last_error : Option String
  pub created_at : ℕ
  pub updated_at : ℕ

-- OUTBOX_STATUSES
pub data OutboxStatus : Type 0 where
  pending publishing delivered failed : OutboxStatus

-- A row of event_outbox, and the `OutboxRecord` read from it (which leaves `created_at` out).
pub record OutboxRecord : Type 0 where
  pub outbox_id : String
  pub service_namespace : String
  pub message_id : String
  pub destination : String
  pub payload : Fields
  pub run_id : Option String
  pub status : OutboxStatus
  pub attempts : ℕ
  pub next_attempt_at : ℕ
  pub lease_owner : Option String
  pub lease_expires_at : Option ℕ
  pub last_error : Option String
  pub delivered_at : Option ℕ
  pub created_at : ℕ

-- RECEIPT_STATUSES
pub data ReceiptStatus : Type 0 where
  pending sending delivered failed uncertain blocked needs_review : ReceiptStatus

-- A row of delivery_receipts, and the `DeliveryReceipt` read from it.
pub record DeliveryReceipt : Type 0 where
  pub service_namespace : String
  pub destination : String
  pub message_id : String
  pub status : ReceiptStatus
  pub attempts : ℕ
  pub next_attempt_at : ℕ
  pub provider_ref : Option String
  pub lease_owner : Option String
  pub lease_expires_at : Option ℕ
  pub last_error : Option String
  pub updated_at : ℕ
  pub claim_epoch : ℕ
  pub event_version : ℕ
  pub effect_started_at : Option ℕ
  pub provider_ref_recorded_at : Option ℕ

-- A row of delivery_receipt_events. Its event_id, a serial number, is its place in the table.
pub record ReceiptEvent : Type 0 where
  pub service_namespace : String
  pub destination : String
  pub message_id : String
  pub event_version : ℕ
  pub transition : String
  pub from_status : Option ReceiptStatus
  pub to_status : ReceiptStatus
  pub actor_kind : String
  pub actor : String
  pub reason : String
  pub evidence : Fields
  pub created_at : ℕ

-- `Migration` of migrations.py. Its checksum is a digest of `sql`.
pub record Migration : Type 0 where
  pub version : ℕ
  pub name : String
  pub sql : String

-- A row of schema_migrations.
pub record LedgerRow : Type 0 where
  pub namespace : String
  pub version : ℕ
  pub name : String
  pub checksum : String

-- `version` is the one row of schema_meta, `none` before the first migration; `ledger` is
-- schema_migrations, `none` where the table is not there. `executed` are the bodies of migrations
-- that the database has run, the last one last. `minted` counts the identifiers drawn from `uuid4`
-- and `drawn` the numbers drawn from `uniform`.
pub record Db : Type 0 where
  pub version : Option ℕ
  pub runs : List RunRecord
  pub events : List Event
  pub next_event_id : ℕ
  pub inbox : List InboxRow
  pub launches : List LaunchRecord
  pub outbox : List OutboxRecord
  pub receipts : List DeliveryReceipt
  pub receipt_events : List ReceiptEvent
  pub ledger : Option (List LedgerRow)
  pub executed : List Migration
  pub minted : ℕ
  pub drawn : ℕ

-- One session: `now` is the transaction's `now()`, `utcnow` the process's own clock, both in
-- microseconds; `uuid4` and `uniform` are the process's sources of identifiers and of numbers in
-- a range from 0. `text_of` is Python's `str()` of a JSON value that is not a text, `sha256` is
-- hashlib's digest in hexadecimal, `isoformat` a time as text, and `ddl` gives the texts _V1_DDL to _V5_DDL by their number.
pub record Conn : Type 0 where
  pub now : ℕ
  pub utcnow : ℕ
  pub uuid4 : ℕ → String
  pub uniform : ℕ → ℕ → ℕ
  pub text_of : Json → String
  pub sha256 : String → String
  pub isoformat : ℕ → String
  pub ddl : ℕ → String

-- make_interval(secs => n), make_interval(days => n)
abbrev pub microseconds : ℕ
microseconds = 1000000

abbrev pub microseconds_a_day : ℕ
microseconds_a_day = 86400000000
