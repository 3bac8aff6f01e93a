-- ===== src/Messaging/Inbox.antt =====
-- messaging/inbox.py: an inbound event, its run and its pending launch in one transaction.
pub mod Once
pub mod Atomic
use workflow_runtime_core.Base.{
  ℕ, ◌+◌, ◌*◌, String, Bool, true, false, not, ◌&&◌, Option, none, some, List, [], ◌∷◌, ◌++◌, ltb,
  str_eq, length, select, find?, delete, any, if◌then◌else◌,
}
use workflow_runtime_core.Exec.{
  Error, Result, ok, err, Exec, unique_violation, foreign_key_violation, key_error, transaction,
  raise_if, ◌>>=◌, ◌>>◌, pure,
}
use workflow_runtime_core.Json.{Fields, end}
use workflow_runtime_core.Models.{RunRecord, is_terminal}
use workflow_runtime_core.Db.{
  Db, Conn, InboxRow, LaunchRecord, LaunchState, has_id, microseconds_a_day,
}
use workflow_runtime_core.Registry.Record.{get_run}
use workflow_runtime_core.Registry.Create.{NewRun, create_run}
use workflow_runtime_core.Messaging.Outbox.{require_messaging}
use workflow_runtime_core.Messaging.Launches.{launches_run}
use workflow_runtime_core.Messaging.Envelope.{Envelope, validate, as_dict}
use workflow_runtime_core.Messaging.Envelope.Read.{from_dict}

pub record SubmitResult : Type 0 where
  pub run_id : String
  pub inbox_id : String
  pub duplicate : Bool

-- The other arguments of `submit_event`.
pub record SubmitArgs : Type 0 where
  pub launcher : String
  pub params_hash : String
  pub config : Option Fields
  pub client_slug : Option String
  pub image_tag : Option String

abbrev pub from_source : String → String → String → InboxRow → Bool
from_source namespace source source_message_id e =
    str_eq e.service_namespace namespace
    && str_eq e.source source
    && str_eq e.source_message_id source_message_id

abbrev pub of_envelope : Envelope → InboxRow → Bool
of_envelope envelope =
    from_source envelope.service_namespace envelope.source envelope.source_message_id

abbrev pub duplicate_of : Option InboxRow → Option SubmitResult
duplicate_of none = none
duplicate_of (some e) = some (record { run_id = e.run_id; inbox_id = e.inbox_id; duplicate = true })

-- `_existing`
unfoldable pub existing : Envelope → Db → Option SubmitResult
existing envelope db = duplicate_of (find? (of_envelope envelope) db.inbox)

abbrev or_empty : Option Fields → Fields
or_empty none = end
or_empty (some d) = d

abbrev pub run_of : Envelope → SubmitArgs → NewRun
run_of envelope args = record {
  workflow = envelope.workflow;
  config = or_empty args.config;
  client_slug = args.client_slug;
  thread_id = none;
  run_id = none;
  image_tag = args.image_tag;
  job_template = none;
  idempotency_key = none;
  workspace_id = none;
  retry_of = none;
  attempt_no = 1;
  input_set_id = none;
}

abbrev pub has_inbox_id : String → InboxRow → Bool
has_inbox_id inbox_id e = str_eq e.inbox_id inbox_id

abbrev pub inbox_row : Conn → Envelope → String → String → InboxRow
inbox_row conn envelope inbox_id run_id = record {
  inbox_id = inbox_id;
  service_namespace = envelope.service_namespace;
  source = envelope.source;
  source_message_id = envelope.source_message_id;
  run_id = run_id;
  envelope_json = as_dict envelope;
  received_at = conn.now;
}

-- INSERT INTO event_inbox
unfoldable pub insert_inbox : InboxRow → Exec Db (Unit {0})
insert_inbox e db =
    if any (has_inbox_id e.inbox_id) db.inbox
    then (err unique_violation, db)
    else if any (from_source e.service_namespace e.source e.source_message_id) db.inbox
    then (err unique_violation, db)
    else if any (has_id e.run_id) db.runs
    then (ok tt, record db { inbox = db.inbox ++ e ∷ [] })
    else (err foreign_key_violation, db)

abbrev pub pending_launch : Conn → SubmitArgs → String → LaunchRecord
pending_launch conn args run_id = record {
  run_id = run_id;
  launcher = args.launcher;
  state = LaunchState.pending;
  params_hash = args.params_hash;
  attempts = 0;
  next_attempt_at = conn.now;
  lease_owner = none;
  lease_expires_at = none;
  execution_ref = none;
  last_error = none;
  created_at = conn.now;
  updated_at = conn.now;
}

-- INSERT INTO run_launches … ON CONFLICT (run_id) DO NOTHING
unfoldable pub insert_launch : LaunchRecord → Exec Db (Unit {0})
insert_launch l db =
    if any (launches_run l.run_id) db.launches
    then (ok tt, db)
    else if any (has_id l.run_id) db.runs
    then (ok tt, record db { launches = db.launches ++ l ∷ [] })
    else (err foreign_key_violation, db)

-- The savepoint's block.
unfoldable pub submit_block : Conn → Envelope → SubmitArgs → String → Exec Db SubmitResult
submit_block conn envelope args inbox_id = do
  run ← create_run conn (run_of envelope args)
  insert_inbox (inbox_row conn envelope inbox_id run.run_id)
  insert_launch (pending_launch conn args run.run_id)
  pure (record { run_id = run.run_id; inbox_id = inbox_id; duplicate = false })

-- The winner of a race, or the violation again.
abbrev pub raced : Option SubmitResult → Exec Db SubmitResult
raced none db = (err unique_violation, db)
raced (some result) db = (ok result, db)

abbrev pub is_unique_violation : Error → Bool
is_unique_violation unique_violation = true
is_unique_violation _ = false

-- `except psycopg.errors.UniqueViolation`
unfoldable pub after_block : Envelope → Result SubmitResult → Exec Db SubmitResult
unfolding existing
after_block envelope (ok result) db = (ok result, db)
after_block envelope (err e) db =
    if is_unique_violation e then raced (existing envelope db) db else (err e, db)

unfoldable pub submit_found :
    Conn → Envelope → SubmitArgs → Option SubmitResult → Exec Db SubmitResult
unfolding after_block
submit_found conn envelope args (some found) db = (ok found, db)
submit_found conn envelope args none db =
    let counted = record db { minted = db.minted + 1 } in
    let (r, db') = transaction (submit_block conn envelope args (conn.uuid4 db.minted)) counted in
    after_block envelope r db'

abbrev pub raised : Result (Unit {0}) → Exec Db (Unit {0})
raised r db = (r, db)

unfoldable pub submit_event : Conn → Envelope → SubmitArgs → Exec Db SubmitResult
unfolding existing submit_found
submit_event conn envelope args = do
  raised (validate envelope)
  require_messaging
  λ db. submit_found conn envelope args (existing envelope db) db

abbrev pub read_envelope : Option InboxRow → Exec Db (Option Envelope)
read_envelope none db = (ok none, db)
read_envelope (some e) db = elim (from_dict e.envelope_json) [
  | none ↦ (err key_error, db)
  | some v ↦ (ok (some v), db)
]

unfoldable pub get_envelope : String → Exec Db (Option Envelope)
get_envelope run_id = do
  require_messaging
  λ db. read_envelope (find? (λ e. str_eq e.run_id run_id) db.inbox) db

abbrev pub run_from : Option InboxRow → Db → Option RunRecord
run_from none db = none
run_from (some e) db = get_run e.run_id db

unfoldable pub run_for_source : String → String → String → Exec Db (Option RunRecord)
run_for_source namespace source source_message_id = do
  require_messaging
  λ db. (ok (run_from (find? (from_source namespace source source_message_id) db.inbox) db), db)

abbrev pub is_settled : String → RunRecord → Bool
is_settled run_id r = has_id run_id r && is_terminal r.status

abbrev pub is_spent : Conn → String → ℕ → Db → InboxRow → Bool
is_spent conn namespace days db e =
    str_eq e.service_namespace namespace
    && ltb (e.received_at + days * microseconds_a_day) conn.now
    && any (is_settled e.run_id) db.runs

unfoldable pub purge_inbox : Conn → String → ℕ → Bool → Exec Db ℕ
purge_inbox conn namespace days dry_run = do
  require_messaging
  λ db. (
    ok (length (select (is_spent conn namespace days db) db.inbox)),
    if dry_run then db else record db { inbox = delete (is_spent conn namespace days db) db.inbox },
  )
