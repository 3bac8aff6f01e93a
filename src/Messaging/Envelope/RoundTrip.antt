-- ===== src/Messaging/Envelope/RoundTrip.antt =====
-- `from_dict` reads what `as_dict` wrote.
use workflow_runtime_core.Base.{String, ◌≡◌, refl, Option, none, some, List, [], ◌∷◌}
use workflow_runtime_core.Json
use workflow_runtime_core.Json.{Json, Fields, Items}
use workflow_runtime_core.Messaging.Envelope.{
  ℤ, pos, negsuc, AttachmentRef, Envelope, attachment_as_dict, attachments_as_items, as_dict,
}
use workflow_runtime_core.Messaging.Envelope.Read.{
  attachment_from_dict, attachments_from_items, from_dict, attachment_of, envelope_of,
}

attachment_lem :
    (m : String) (n : ℤ) (d r : String) (f : Option String)
    → attachment_from_dict (attachment_as_dict (attachment_of m n d r f))
      ≡ some (attachment_of m n d r f)
unfolding attachment_from_dict attachment_as_dict Json.get
attachment_lem m (pos n) d r none = refl
attachment_lem m (pos n) d r (some f) = refl
attachment_lem m (negsuc n) d r none = refl
attachment_lem m (negsuc n) d r (some f) = refl

attachments_lem :
    (attachments : List AttachmentRef)
    → attachments_from_items (attachments_as_items attachments) ≡ some attachments
unfolding attachments_from_items attachments_as_items
attachments_lem [] = refl
attachments_lem (a ∷ attachments) = rw (
  attachment_lem a.media_type a.size_bytes a.digest a.reference a.filename,
  attachments_lem attachments,
)

read_lem :
    (n s i w : String) (p : Fields) (a : List AttachmentRef) (r : Option Fields) (c : Option String)
    (v : ℤ)
    → from_dict (as_dict (envelope_of n s i w p a r c v)) ≡ some (envelope_of n s i w p a r c v)
unfolding from_dict as_dict Json.get
read_lem n s i w p a none none (pos v) = rw (attachments_lem a)
read_lem n s i w p a none none (negsuc v) = rw (attachments_lem a)
read_lem n s i w p a none (some c) (pos v) = rw (attachments_lem a)
read_lem n s i w p a none (some c) (negsuc v) = rw (attachments_lem a)
read_lem n s i w p a (some r) none (pos v) = rw (attachments_lem a)
read_lem n s i w p a (some r) none (negsuc v) = rw (attachments_lem a)
read_lem n s i w p a (some r) (some c) (pos v) = rw (attachments_lem a)
read_lem n s i w p a (some r) (some c) (negsuc v) = rw (attachments_lem a)

-- Every envelope is read back from its dict exactly as it was, so that a recovery path that
-- re-reads a stored envelope sees the event that created the run.
pub from_dict-as_dict : (e : Envelope) → from_dict (as_dict e) ≡ some e
from_dict-as_dict e =
    read_lem e.service_namespace e.source e.source_message_id e.workflow e.payload e.attachments
      e.reply_to e.correlation_id e.schema_version
