-- ===== src/Messaging/Envelope/Read.antt =====
-- messaging/envelope.py: `Envelope.from_dict` and `AttachmentRef.from_dict`.
use workflow_runtime_core.Base.{String, Option, none, some, List, [], ◌∷◌}
use workflow_runtime_core.Json
use workflow_runtime_core.Json.{Json, null, num, neg, str, arr, obj, Items, nil, cons, Fields, end}
use workflow_runtime_core.Messaging.Envelope.{ℤ, pos, negsuc, AttachmentRef, Envelope}

-- What `from_dict` reads from a dict, `none` for a missing key or a value of another type than
-- the field's, which the source would carry along unchecked.
abbrev as_text : Option Json → Option String
as_text (some (str s)) = some s
as_text _ = none

abbrev as_int : Option Json → Option ℤ
as_int (some (num n)) = some (pos n)
as_int (some (neg n)) = some (negsuc n)
as_int _ = none

-- raw.get(key), where None is a value of the field
abbrev as_text_or_none : Option Json → Option (Option String)
as_text_or_none none = some none
as_text_or_none (some null) = some none
as_text_or_none (some (str s)) = some (some s)
as_text_or_none _ = none

abbrev as_dict_or_none : Option Json → Option (Option Fields)
as_dict_or_none none = some none
as_dict_or_none (some null) = some none
as_dict_or_none (some (obj d)) = some (some d)
as_dict_or_none _ = none

-- raw.get("payload") or {}
abbrev payload_of : Option Json → Option Fields
payload_of none = some end
payload_of (some null) = some end
payload_of (some (obj d)) = some d
payload_of _ = none

-- int(raw.get("schema_version", 1))
abbrev version_of : Option Json → Option ℤ
version_of none = some (pos 1)
version_of v = as_int v

infixl 4 ◌<*>◌
abbrev ◌<*>◌ {ℓ κ} : {A : Type ℓ} {B : Type κ} → Option (A → B) → Option A → Option B
none <*> a = none
some f <*> none = none
some f <*> some a = some (f a)

abbrev pub attachment_of : String → ℤ → String → String → Option String → AttachmentRef
attachment_of m s d r f = record {
  media_type = m;
  size_bytes = s;
  digest = d;
  reference = r;
  filename = f;
}

unfoldable pub attachment_from_dict : Fields → Option AttachmentRef
attachment_from_dict raw =
    some attachment_of
    <*> as_text (Json.get "media_type" raw)
    <*> as_int (Json.get "size_bytes" raw)
    <*> as_text (Json.get "digest" raw)
    <*> as_text (Json.get "reference" raw)
    <*> as_text_or_none (Json.get "filename" raw)

abbrev cons_attachment : AttachmentRef → List AttachmentRef → List AttachmentRef
cons_attachment a attachments = a ∷ attachments

unfoldable pub attachments_from_items : Items → Option (List AttachmentRef)
attachments_from_items nil = some []
attachments_from_items (cons (obj raw) rest) =
    some cons_attachment <*> attachment_from_dict raw <*> attachments_from_items rest
attachments_from_items (cons _ rest) = none

-- raw.get("attachments") or []
abbrev attachments_of : Option Json → Option (List AttachmentRef)
attachments_of none = some []
attachments_of (some null) = some []
attachments_of (some (arr items)) = attachments_from_items items
attachments_of _ = none

abbrev pub envelope_of :
    String
    → String
    → String
    → String
    → Fields
    → List AttachmentRef
    → Option Fields
    → Option String
    → ℤ
    → Envelope
envelope_of n s i w p a r c v = record {
  service_namespace = n;
  source = s;
  source_message_id = i;
  workflow = w;
  payload = p;
  attachments = a;
  reply_to = r;
  correlation_id = c;
  schema_version = v;
}

unfoldable pub from_dict : Fields → Option Envelope
from_dict raw =
    some envelope_of
    <*> as_text (Json.get "service_namespace" raw)
    <*> as_text (Json.get "source" raw)
    <*> as_text (Json.get "source_message_id" raw)
    <*> as_text (Json.get "workflow" raw)
    <*> payload_of (Json.get "payload" raw)
    <*> attachments_of (Json.get "attachments" raw)
    <*> as_dict_or_none (Json.get "reply_to" raw)
    <*> as_text_or_none (Json.get "correlation_id" raw)
    <*> version_of (Json.get "schema_version" raw)
