-- ===== src/Messaging/Envelope.antt =====
-- messaging/envelope.py: the normalized inbound event, its bounds and its JSON.
pub mod Read
pub mod RoundTrip
pub mod Bounds
use workflow_runtime_core.Base.{
  ℕ, zero, suc, String, Bool, true, false, not, ◌&&◌, ◌||◌, Option, none, some, List, [], ◌∷◌, ltb,
  leb, ◌==◌, codes, length, is_lower, is_digit, at_end, if◌then◌else◌, is_blank, ℤ, pos, negsuc,
}
use workflow_runtime_core.Exec.{Error, Result, ok, err, envelope_error, envelope_too_large}
use workflow_runtime_core.Json
use workflow_runtime_core.Json.{
  Json, null, num, neg, str, arr, obj, Items, nil, cons, Fields, end, field, encoded_length,
}

pub record AttachmentRef : Type 0 where
  pub media_type : String
  pub size_bytes : ℤ
  pub digest : String
  pub reference : String
  pub filename : Option String

pub record Envelope : Type 0 where
  pub service_namespace : String
  pub source : String
  pub source_message_id : String
  pub workflow : String
  pub payload : Fields
  pub attachments : List AttachmentRef
  pub reply_to : Option Fields
  pub correlation_id : Option String
  pub schema_version : ℤ

-- MAX_ENVELOPE_BYTES, MAX_ATTACHMENTS
abbrev pub max_envelope_bytes : ℕ
max_envelope_bytes = 262144

abbrev pub max_attachments : ℕ
max_attachments = 20

abbrev pub is_alnum : ℕ → Bool
is_alnum c = is_lower c || is_digit c

-- `([a-z0-9-]{0,n}[a-z0-9])?$` behind a first character: the part ends in a letter or a digit.
-- `last` says whether the character before is one.
unfoldable pub ends_alnum : ℕ → Bool → List ℕ → Bool
ends_alnum n last [] = last
ends_alnum n last (c ∷ []) = (last && c == 10) || (is_alnum c && not (n == 0))
ends_alnum zero last (c ∷ d ∷ cs) = false
ends_alnum (suc n) last (c ∷ d ∷ cs) =
    let rest = ends_alnum n (is_alnum c) (d ∷ cs) in (is_alnum c || c == b'-') && rest

unfoldable pub matches_namespace : List ℕ → Bool
unfolding ends_alnum
matches_namespace [] = false
matches_namespace (c ∷ cs) = is_alnum c && ends_alnum 62 true cs

-- SERVICE_NAMESPACE_RE.match(text)
unfoldable pub is_service_namespace : String → Bool
unfolding codes matches_namespace
is_service_namespace s = matches_namespace (codes s)

abbrev is_hex : ℕ → Bool
is_hex c = is_digit c || (leb b'a' c && leb c b'f')

exactly : (ℕ → Bool) → ℕ → List ℕ → Bool
exactly class zero cs = at_end cs
exactly class (suc n) [] = false
exactly class (suc n) (c ∷ cs) = let rest = exactly class n cs in class c && rest

-- _SHA256_RE.match(text)
unfoldable pub is_sha256 : String → Bool
unfolding codes exactly
is_sha256 s = exactly is_hex 64 (codes s)

abbrev pub is_negative : ℤ → Bool
is_negative (pos n) = false
is_negative (negsuc n) = true

unfoldable pub validate_attachment : AttachmentRef → Result (Unit {0})
validate_attachment a =
    if is_blank a.media_type
    then err envelope_error
    else if is_negative a.size_bytes
    then err envelope_error
    else if not (is_sha256 a.digest)
    then err envelope_error
    else if is_blank a.reference
    then err envelope_error
    else ok tt

abbrev pub and_then : Result (Unit {0}) → Result (Unit {0}) → Result (Unit {0})
and_then (ok a) next = next
and_then (err e) next = err e

unfoldable pub validate_all : List AttachmentRef → Result (Unit {0})
validate_all [] = ok tt
validate_all (a ∷ attachments) = and_then (validate_attachment a) (validate_all attachments)

abbrev int_json : ℤ → Json
int_json (pos n) = num n
int_json (negsuc n) = neg n

abbrev text_or_null : Option String → Json
text_or_null none = null
text_or_null (some s) = str s

abbrev dict_or_null : Option Fields → Json
dict_or_null none = null
dict_or_null (some d) = obj d

abbrev filename_field : Option String → Fields
filename_field none = end
filename_field (some s) = field "filename" (str s) end

unfoldable pub attachment_as_dict : AttachmentRef → Fields
attachment_as_dict a = field "media_type" (str a.media_type) (
    field "size_bytes" (int_json a.size_bytes) (
      field "digest" (str a.digest)
        (field "reference" (str a.reference) (filename_field a.filename))))

unfoldable pub attachments_as_items : List AttachmentRef → Items
unfolding attachment_as_dict
attachments_as_items [] = nil
attachments_as_items (a ∷ attachments) =
    cons (obj (attachment_as_dict a)) (attachments_as_items attachments)

unfoldable pub as_dict : Envelope → Fields
unfolding attachments_as_items
as_dict e = field "schema_version" (int_json e.schema_version) (
    field "service_namespace" (str e.service_namespace) (
      field "source" (str e.source) (
        field "source_message_id" (str e.source_message_id) (
          field "workflow" (str e.workflow) (
            field "payload" (obj e.payload) (
              field "attachments" (arr (attachments_as_items e.attachments)) (
                field "reply_to" (dict_or_null e.reply_to)
                  (field "correlation_id" (text_or_null e.correlation_id) end))))))))

-- len(self.encoded())
unfoldable pub encoded_size : Envelope → ℕ
unfolding as_dict
encoded_size e = encoded_length (obj (as_dict e))

unfoldable pub validate : Envelope → Result (Unit {0})
validate e =
    if not (is_service_namespace e.service_namespace)
    then err envelope_error
    else if is_blank e.source
    then err envelope_error
    else if is_blank e.source_message_id
    then err envelope_error
    else if is_blank e.workflow
    then err envelope_error
    else if ltb max_attachments (length e.attachments)
    then err envelope_too_large
    else and_then (validate_all e.attachments)
        (if ltb max_envelope_bytes (encoded_size e) then err envelope_too_large else ok tt)
