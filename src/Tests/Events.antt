-- ===== src/Tests/Events.antt =====
-- Examples of inbound events.
use mathlib.Core.Logic.{◌↔◌}
use workflow_runtime_core.Base.{pos, is_blank, String, ◌≡◌, refl, true, false, none, some, [], ◌∷◌}
use workflow_runtime_core.Exec.{ok, unique_violation, ◌>>=◌}
use workflow_runtime_core.Json.{end, field, str, encoded_length, text_length, number_length}
use workflow_runtime_core.Db.{Db, row, emit, insert_run}
use workflow_runtime_core.Models.{running}
use workflow_runtime_core.Registry.Create.{
  create_run, create_run_found, existing_run, insert_new, after_insert,
}
use workflow_runtime_core.Messaging.Envelope.{
  Envelope, AttachmentRef, as_dict, validate, validate_all, validate_attachment,
  is_service_namespace, is_sha256, encoded_size,
}
use workflow_runtime_core.Messaging.Envelope.Read.{from_dict}
use workflow_runtime_core.Messaging.Envelope.RoundTrip.{from_dict-as_dict}
use workflow_runtime_core.Messaging.Envelope.Bounds.{IsEnvelope, validate-exact}
use workflow_runtime_core.Messaging.Inbox.{
  SubmitArgs, submit_event, submit_found, submit_block, existing, insert_inbox, insert_launch,
  inbox_row, after_block,
}
use workflow_runtime_core.Messaging.Inbox.Once.{submit_event_once}
use workflow_runtime_core.Messaging.Inbox.Atomic.{submit_event-atomic, recorded}
use workflow_runtime_core.Tests.Samples.{session, run_in, db_with}

abbrev photo : AttachmentRef
photo = record {
  media_type = "image/png";
  size_bytes = pos 1024;
  digest = "0123456789abcdef0123456789abcdef0123456789abcdef0123456789abcdef";
  reference = "https://store/a";
  filename = some "a.png";
}

abbrev event_in : String → Envelope
event_in namespace = record {
  service_namespace = namespace;
  source = "mail";
  source_message_id = "msg-1";
  workflow = "sales_report";
  payload = field "text" (str "hello") end;
  attachments = photo ∷ [];
  reply_to = none;
  correlation_id = some "c-1";
  schema_version = pos 1;
}

abbrev arguments : SubmitArgs
arguments = record {
  launcher = "local";
  params_hash = "h";
  config = none;
  client_slug = none;
  image_tag = none;
}

from_dict-as_dict_example : from_dict (as_dict (event_in "reports")) ≡ some (event_in "reports")
from_dict-as_dict_example = from_dict-as_dict (event_in "reports")

accepted : validate (event_in "reports") ≡ ok tt
unfolding validate validate_all validate_attachment is_service_namespace is_sha256 is_blank
    encoded_size encoded_length text_length number_length as_dict
accepted = refl

validate-exact_example : (validate (event_in "reports") ≡ ok tt) ↔ IsEnvelope (event_in "reports")
validate-exact_example = validate-exact (event_in "reports")

-- An event of another message came under the identifier that the next one will draw.
abbrev taken : Db
taken = record (db_with (run_in running none none ∷ [])) {
  inbox =
      inbox_row (session 5) (record (event_in "reports") { source_message_id = "msg-0" }) "id-a"
        "r1"
      ∷ [];
}

submit_event-atomic_example :
    recorded (submit_event (session 10) (event_in "reports") arguments taken).1 ≡ recorded taken
unfolding submit_event submit_found submit_block existing insert_inbox insert_launch after_block
    create_run create_run_found existing_run insert_new after_insert insert_run emit row ◌>>=◌
submit_event-atomic_example =
    submit_event-atomic (session 10) (event_in "reports") arguments taken
      (submit_event (session 10) (event_in "reports") arguments taken).1 unique_violation
      (let a = accepted in rw a refl)

submit_event_once_example :
    submit_event
      (session 20)
      (event_in "reports")
      arguments
      (submit_event (session 10) (event_in "reports") arguments (db_with [])).1
    ≡ (
      ok (record { run_id = "id-b"; inbox_id = "id-a"; duplicate = true }),
      (submit_event (session 10) (event_in "reports") arguments (db_with [])).1,
    )
unfolding submit_event submit_found submit_block existing insert_inbox insert_launch after_block
    create_run create_run_found existing_run insert_new after_insert insert_run emit row ◌>>=◌
submit_event_once_example =
    submit_event_once (session 10) (session 20) (event_in "reports") (event_in "reports") arguments
      arguments (db_with [])
      (submit_event (session 10) (event_in "reports") arguments (db_with [])).1
      (record { run_id = "id-b"; inbox_id = "id-a"; duplicate = false }) refl refl refl accepted
      (let a = accepted in rw a) (let a = accepted in rw a)
