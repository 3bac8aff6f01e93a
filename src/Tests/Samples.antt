-- ===== src/Tests/Samples.antt =====
-- Sessions, runs and messages that the examples share.
use workflow_runtime_core.Base.{ℕ, ◌==◌, if◌then◌else◌, String, true, Option, none, some, List, []}
use workflow_runtime_core.Json.{end, field, str}
use workflow_runtime_core.Models.{RunRecord, RunStatus}
use workflow_runtime_core.Db.{Db, Conn, OutboxRecord, OutboxStatus, LaunchRecord, LaunchState}
use workflow_runtime_core.Registry.Create.{NewRun}
use workflow_runtime_core.Messaging.Outbox.{OutboxMessage}

-- A session at a time, in microseconds.
abbrev pub session : ℕ → Conn
session time = record {
  now = time;
  utcnow = time;
  uuid4 = λ n. if n == 0 then "id-a" else if n == 1 then "id-b" else "id-c";
  uniform = λ n c. c;
  text_of = λ v. "1";
  sha256 = λ s. s;
  isoformat = λ n. "2026";
  ddl = λ n. if n == 5 then "v5" else "v";
}

abbrev pub new_run : NewRun
new_run = record {
  workflow = "sales_report";
  config = end;
  client_slug = some "acme";
  thread_id = none;
  run_id = some "r1";
  image_tag = none;
  job_template = none;
  idempotency_key = some "key-1";
  workspace_id = some "w1";
  retry_of = none;
  attempt_no = 1;
  input_set_id = none;
}

-- The run r1 of dispatch d1, with a status, a lease and a workspace.
abbrev pub run_in : RunStatus → Option String → Option ℕ → RunRecord
run_in status owner expires = record {
  run_id = "r1";
  workflow = "sales_report";
  thread_id = "r1";
  status = status;
  client_slug = some "acme";
  config_json = end;
  image_tag = none;
  job_template_json = none;
  created_at = 0;
  updated_at = 0;
  interrupt_payload = none;
  error = none;
  artifacts_json = none;
  idempotency_key = some "key-1";
  workspace_id = some "w1";
  retry_of = none;
  attempt_no = 1;
  dispatch_id = some "d1";
  lease_owner = owner;
  lease_expires_at = expires;
  heartbeat_at = none;
  progress_json = none;
  error_json = none;
  delivery_count = 0;
  artifacts_published_at = none;
  input_set_id = none;
  execution_metadata_json = none;
  execution_metadata_column_present = true;
}

abbrev pub db_with : List RunRecord → Db
db_with runs = record {
  version = some 5;
  runs = runs;
  events = [];
  next_event_id = 1;
  inbox = [];
  launches = [];
  outbox = [];
  receipts = [];
  receipt_events = [];
  ledger = none;
  executed = [];
  minted = 0;
  drawn = 0;
}

abbrev pub reply : OutboxMessage
reply = record {
  service_namespace = "reports";
  message_id = "m1";
  destination = "mail";
  payload = field "text" (str "done") end;
  run_id = none;
}

abbrev pub outbox_row : String → OutboxStatus → Option String → Option ℕ → OutboxRecord
outbox_row id status owner expires = record {
  outbox_id = id;
  service_namespace = "reports";
  message_id = id;
  destination = "mail";
  payload = end;
  run_id = none;
  status = status;
  attempts = 0;
  next_attempt_at = 0;
  lease_owner = owner;
  lease_expires_at = expires;
  last_error = none;
  delivered_at = none;
  created_at = 0;
}

abbrev pub db_sending : List OutboxRecord → Db
db_sending rows = record (db_with []) { outbox = rows }

abbrev pub launch_of : String → LaunchRecord
launch_of run_id = record {
  run_id = run_id;
  launcher = "local";
  state = LaunchState.pending;
  params_hash = "h";
  attempts = 0;
  next_attempt_at = 0;
  lease_owner = none;
  lease_expires_at = none;
  execution_ref = none;
  last_error = none;
  created_at = 0;
  updated_at = 0;
}

abbrev pub db_launching : List LaunchRecord → Db
db_launching rows = record (db_with []) { launches = rows }
