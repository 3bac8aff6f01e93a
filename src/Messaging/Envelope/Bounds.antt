-- ===== src/Messaging/Envelope/Bounds.antt =====
-- The envelopes that `validate` lets through.
use mathlib.Core.Logic.{◌↔◌}
use workflow_runtime_core.Base.{
  ℕ, ◌≤◌, ◌≡◌, refl, true, false, List, [], ◌∷◌, arith, ltb, length, All, ℤ, pos, negsuc, is_blank,
  if◌then◌else◌,
}
use workflow_runtime_core.Exec.{Result, ok, err, envelope_too_large}
use workflow_runtime_core.Messaging.Envelope.{
  AttachmentRef, Envelope, is_service_namespace, is_sha256, is_negative, validate_attachment,
  validate_all, validate, and_then, encoded_size, max_attachments, max_envelope_bytes,
}

-- An attachment: its media type and its reference are not blank, its size is not negative, and its
-- digest is a SHA-256 one.
pub record IsAttachment (a : AttachmentRef) : Type 0 where
  pub typed : is_blank a.media_type ≡ false
  pub sized : (n : ℕ) × (a.size_bytes ≡ pos n)
  pub digested : is_sha256 a.digest ≡ true
  pub referenced : is_blank a.reference ≡ false

-- An envelope: its namespace is a service's, its source, its message id and its workflow are not
-- blank, it has at most twenty attachments, each of them one, and at most 256 KiB when encoded.
pub record IsEnvelope (e : Envelope) : Type 0 where
  pub spaced : is_service_namespace e.service_namespace ≡ true
  pub sourced : is_blank e.source ≡ false
  pub identified : is_blank e.source_message_id ≡ false
  pub routed : is_blank e.workflow ≡ false
  pub few : length e.attachments ≤ 20
  pub attached : All IsAttachment e.attachments
  pub small : encoded_size e ≤ 262144

sized_of : (z : ℤ) → is_negative z ≡ false → (n : ℕ) × (z ≡ pos n)
sized_of (pos n) h = (n, refl)
sized_of (negsuc n) h = cc h

IsAttachment-accepted : (a : AttachmentRef) → (validate_attachment a ≡ ok tt) ↔ IsAttachment a
unfolding validate_attachment
IsAttachment-accepted a = (
  λ h. record {
    typed = ground (arith, h);
    sized = sized_of a.size_bytes (ground (arith, h));
    digested = ground (arith, h);
    referenced = ground (arith, h);
  },
  λ v. let (n, size) = v.sized in rw (v.typed, size, v.digested, v.referenced) refl,
)

and_then-ok : (r next : Result Unit) → (and_then r next ≡ ok tt) ↔ ((r ≡ ok tt) × (next ≡ ok tt))
and_then-ok (ok tt) next = (λ h. (refl, h), λ h. h.1)
and_then-ok (err e) next = (λ h. cc h, λ h. cc (h.0))

All-accepted :
    (attachments : List AttachmentRef)
    → (validate_all attachments ≡ ok tt) ↔ All IsAttachment attachments
unfolding validate_all
All-accepted [] = (λ h. tt, λ h. refl)
All-accepted (a ∷ attachments) = (
  λ h.
      let (first, rest) = (and_then-ok (validate_attachment a) (validate_all attachments)).0 h in
      ((IsAttachment-accepted a).0 first, (All-accepted attachments).0 rest),
  λ v.
      (and_then-ok (validate_attachment a) (validate_all attachments)).1
        ((IsAttachment-accepted a).1 v.0, (All-accepted attachments).1 v.1),
)

-- `validate` accepts exactly the envelopes: their namespace, their texts that must not be blank,
-- the number of their attachments and each attachment's type, size, digest and reference, and
-- their encoded size are within the bounds of `IsEnvelope`; and every envelope within them passes.
pub validate-exact : (e : Envelope) → (validate e ≡ ok tt) ↔ IsEnvelope e
unfolding validate
validate-exact e =
    let size = if ltb max_envelope_bytes (encoded_size e) then err envelope_too_large else ok tt in
    (
      λ h.
          let last : and_then (validate_all e.attachments) size ≡ ok tt = ground (arith, h) in
          let (attached, small) = (and_then-ok (validate_all e.attachments) size).0 last in
          record {
            spaced = ground (arith, h);
            sourced = ground (arith, h);
            identified = ground (arith, h);
            routed = ground (arith, h);
            few = ground (arith, h);
            attached = (All-accepted e.attachments).0 attached;
            small = ground (arith, small);
          },
      λ v.
          let few : ltb max_attachments (length e.attachments) ≡ false = ground (arith, v.few) in
          let small : ltb max_envelope_bytes (encoded_size e) ≡ false = ground (arith, v.small) in
          let attached = (All-accepted e.attachments).1 v.attached in
          rw (v.spaced, v.sourced, v.identified, v.routed, few, attached, small) refl,
    )
