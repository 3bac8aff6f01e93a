-- ===== src/Messaging/Receipts/Ops.antt =====
-- messaging/receipts.py: the functions on delivery receipts. A connection with restricted
-- capabilities calls the same statements as functions of the database.
use workflow_runtime_core.Base.{
  ℕ, ◌+◌, String, Bool, true, false, not, ◌&&◌, ◌||◌, Option, none, some, List, [], ◌∷◌, ltb, leb,
  str_eq, is_some, codes, is_blank, length, any, ℤ, pos, negsuc, if◌then◌else◌,
}
use workflow_runtime_core.Exec.{Exec, pure, gets, raise, raise_if, ◌>>=◌, ◌>>◌, value_error}
use workflow_runtime_core.Json.{Json, str, obj, Fields, end, field, encoded_length}
use workflow_runtime_core.Db.{Db, Conn, DeliveryReceipt}
use workflow_runtime_core.Schema.{require_compatible_schema, supported_schema_max}
use workflow_runtime_core.Messaging.Receipts.Sql.{
  Audit, execute_operation, receipt, open_row, due_ids,
}
use workflow_runtime_core.Messaging.Receipts.Transition.{Key, Transition}

pub data ActorKind : Type 0 where
  service human : ActorKind

-- Only `make_actor` makes one: `ReceiptActor` checks itself.
pub record ReceiptActor : Type 0 where
  pub kind : ActorKind
  pub subject : String

abbrev kind_text : ActorKind → String
kind_text service = "service"
kind_text human = "human"

abbrev pub is_service : ActorKind → Bool
is_service service = true
is_service human = false

unfoldable pub make_actor : ActorKind → String → Exec Db ReceiptActor
make_actor kind subject = do
  raise_if (is_blank subject || ltb 256 (length (codes subject))) value_error
  pure (record { kind = kind; subject = subject })

abbrev is_evidence_key : String → Bool
is_evidence_key k =
    str_eq k "evidence_ref"
    || str_eq k "expected_digest"
    || str_eq k "observed_digest"
    || str_eq k "outcome"
    || str_eq k "adapter_code"

abbrev is_str : Json → Bool
is_str (str s) = true
is_str _ = false

is_redacted : Fields → Bool
is_redacted end = true
is_redacted (field k v d) = is_evidence_key k && is_str v && is_redacted d

abbrev or_empty : Option Fields → Fields
or_empty none = end
or_empty (some d) = d

-- `_audit`. The evidence is kept as the value, of which the source keeps the encoding.
unfoldable pub audited : ReceiptActor → String → Option Fields → Exec Db Audit
unfolding is_redacted
audited actor reason evidence = do
  raise_if (is_blank reason || ltb 2000 (length (codes reason))) value_error
  raise_if (not (is_redacted (or_empty evidence))) value_error
  raise_if (ltb 4000 (encoded_length (obj (or_empty evidence)))) value_error
  pure (record {
    actor_kind = kind_text actor.kind;
    actor = actor.subject;
    reason = reason;
    evidence = or_empty evidence;
  })

-- require_compatible_schema(conn, minimum=5)
abbrev pub require_receipts : Conn → Exec Db ℕ
require_receipts conn = require_compatible_schema conn 5 supported_schema_max

-- `_change`
unfoldable pub change :
    Conn
    → Key
    → Transition
    → ReceiptActor
    → String
    → Option Fields
    → Exec Db (Option DeliveryReceipt)
change conn key t actor reason evidence = do
  audit ← audited actor reason evidence
  require_receipts conn
  execute_operation conn key t audit

unfoldable pub open_receipt : Conn → Key → ReceiptActor → Exec Db (Unit {0})
open_receipt conn key actor = do
  audit ← audited actor "Receipt opened" none
  require_receipts conn
  λ db. open_row conn key audit (receipt key db) db

unfoldable pub get_receipt : Conn → Key → Exec Db (Option DeliveryReceipt)
get_receipt conn key = do require_receipts conn; gets (receipt key)

abbrev pub lapse_reason : String
lapse_reason = "Sender lease expired; provider outcome unobservable"

-- `_change(…) is not None`
abbrev pub changes : Conn → Key → Transition → ReceiptActor → String → Option Fields → Exec Db Bool
changes conn key t actor reason evidence = do
  row ← change conn key t actor reason evidence
  pure (is_some row)

-- `_expire`
unfoldable pub expire : Conn → Key → Exec Db Bool
expire conn key = do
  actor ← make_actor service "receipt-reconciler"
  changes conn key (Transition.lease_expired lapse_reason) actor lapse_reason none

unfoldable pub claim : Conn → Key → String → ℤ → Exec Db (Option DeliveryReceipt)
claim conn key owner (negsuc n) = raise value_error
claim conn key owner (pos seconds) = do
  expire conn key
  actor ← make_actor service owner
  change conn key (Transition.claim owner seconds) actor "Worker claimed effect" none

abbrev char_bytes : ℕ → ℕ
char_bytes c = if ltb c 128 then 1 else if ltb c 2048 then 2 else if ltb c 65536 then 3 else 4

-- len(text.encode())
byte_length : List ℕ → ℕ
byte_length [] = 0
byte_length (c ∷ cs) = char_bytes c + byte_length cs

is_bad_id : String → Bool
unfolding codes byte_length
is_bad_id id = is_blank id || ltb 2048 (byte_length (codes id))

has_repeat : List String → Bool
has_repeat [] = false
has_repeat (id ∷ ids) = any (str_eq id) ids || has_repeat ids

-- `_message_selection`
unfoldable pub message_selection : Option (List String) → Exec Db (Option (List String))
unfolding has_repeat is_bad_id
message_selection none = pure none
message_selection (some ids) = do
  raise_if (ltb 1000 (length ids)) value_error
  raise_if (any is_bad_id ids) value_error
  raise_if (has_repeat ids) value_error
  pure (some ids)

-- `_limit`; a negative limit is refused as 0 is.
unfoldable pub check_limit : ℕ → Exec Db (Unit {0})
check_limit limit = raise_if (not (leb 1 limit && leb limit 1000)) value_error

abbrev with_row : Option DeliveryReceipt → List DeliveryReceipt → List DeliveryReceipt
with_row none rows = rows
with_row (some r) rows = r ∷ rows

unfoldable pub claim_each :
    Conn → String → String → String → ℤ → List String → Exec Db (List DeliveryReceipt)
claim_each conn namespace destination owner seconds [] = pure []
claim_each conn namespace destination owner seconds (id ∷ ids) = do
  let key : Key = record {
    service_namespace = namespace;
    destination = destination;
    message_id = id;
  }
  row ← claim conn key owner seconds
  rows ← claim_each conn namespace destination owner seconds ids
  pure (with_row row rows)

unfoldable pub claim_due :
    Conn
    → (String → String → Bool)
    → (DeliveryReceipt → Bool)
    → String
    → String
    → String
    → ℤ
    → ℕ
    → Option (List String)
    → Exec Db (List DeliveryReceipt)
claim_due conn text_le locked namespace destination owner seconds limit message_ids = do
  check_limit limit
  selection ← message_selection message_ids
  require_receipts conn
  ids ← gets (due_ids conn text_le locked namespace destination selection limit)
  claim_each conn namespace destination owner seconds ids
