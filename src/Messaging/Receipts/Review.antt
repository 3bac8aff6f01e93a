-- ===== src/Messaging/Receipts/Review.antt =====
-- messaging/receipts.py: stale claims, lists of receipts and their review.
use workflow_runtime_core.Base.{
  ℕ, String, Bool, true, false, not, ◌&&◌, ◌||◌, Option, none, some, List, [], ◌∷◌, ◌==◌, str_eq,
  take, select, sort_by, if◌then◌else◌,
}
use workflow_runtime_core.Exec.{Exec, pure, gets, raise_if, ◌>>=◌, ◌>>◌, value_error}
use workflow_runtime_core.Json.{str, Fields, end, field, get}
use workflow_runtime_core.Db.{Db, Conn, DeliveryReceipt, ReceiptStatus}
use workflow_runtime_core.Messaging.Receipts.Settle.{is_given}
use workflow_runtime_core.Messaging.Receipts.Sql.{stale_keys}
use workflow_runtime_core.Messaging.Receipts.Transition.{Key, Disposition, Transition, status_eq}
use workflow_runtime_core.Messaging.Receipts.Ops.{
  ReceiptActor, is_service, require_receipts, changes, expire, check_limit,
}

abbrev with_id : Bool → String → List String → List String
with_id true id ids = id ∷ ids
with_id false id ids = ids

unfoldable pub expire_each : Conn → List Key → Exec Db (List String)
expire_each conn [] = pure []
expire_each conn (key ∷ keys) = do
  hit ← expire conn key
  ids ← expire_each conn keys
  pure (with_id hit key.message_id ids)

unfoldable pub reconcile_stale :
    Conn → (String → String → Bool) → (DeliveryReceipt → Bool) → String → ℕ → Exec Db (List String)
reconcile_stale conn text_le locked namespace limit = do
  check_limit limit
  require_receipts conn
  keys ← gets (stale_keys conn text_le locked namespace limit)
  expire_each conn keys

abbrev of_status : Option ReceiptStatus → ReceiptStatus → Bool
of_status none s = true
of_status (some t) s = status_eq s t

-- (a, b) <= (c, d) for rows of texts in the database's order.
abbrev pair_le : (String → String → Bool) → String → String → String → String → Bool
pair_le text_le a b c d = if str_eq a c then text_le b d else text_le a c

abbrev is_after : (String → String → Bool) → Option (String × String) → DeliveryReceipt → Bool
is_after text_le none r = true
is_after text_le (some (destination, message_id)) r =
    not (pair_le text_le r.destination r.message_id destination message_id)

unfoldable pub listed :
    (String → String → Bool)
    → String
    → Option ReceiptStatus
    → ℕ
    → Option (String × String)
    → List DeliveryReceipt
    → List DeliveryReceipt
listed text_le namespace status limit after rows = take limit (
    sort_by (λ r s. pair_le text_le r.destination r.message_id s.destination s.message_id)
      (select
        (λ r.
          str_eq r.service_namespace namespace
          && of_status status r.status
          && is_after text_le after r)
        rows))

-- The status is one of RECEIPT_STATUSES by its type.
unfoldable pub list_deliveries :
    Conn
    → (String → String → Bool)
    → String
    → Option ReceiptStatus
    → ℕ
    → Option (String × String)
    → Exec Db (List DeliveryReceipt)
list_deliveries conn text_le namespace status limit after = do
  check_limit limit
  require_receipts conn
  gets (λ db. listed text_le namespace status limit after db.receipts)

unfoldable pub list_uncertain :
    Conn → (String → String → Bool) → String → ℕ → Exec Db (List DeliveryReceipt)
list_uncertain conn text_le namespace limit =
    list_deliveries conn text_le namespace (some ReceiptStatus.uncertain) limit none

abbrev pub is_ambiguous : ReceiptStatus → Bool
is_ambiguous ReceiptStatus.uncertain = true
is_ambiguous ReceiptStatus.needs_review = true
is_ambiguous _ = false

abbrev pub resolved_status : Disposition → ReceiptStatus
resolved_status Disposition.delivered = ReceiptStatus.delivered
resolved_status Disposition.blocked = ReceiptStatus.blocked
resolved_status Disposition.retry_new_generation = ReceiptStatus.blocked

-- The disposition is one of the three by its type.
unfoldable pub resolve :
    Conn
    → Key
    → Disposition
    → ReceiptActor
    → String
    → ReceiptStatus
    → ℕ
    → Option Fields
    → Exec Db Bool
resolve conn key disposition actor note expected version evidence = do
  raise_if (not (is_ambiguous expected)) value_error
  changes conn key
      (Transition.resolved disposition (resolved_status disposition) note expected version) actor
      note evidence

unfoldable pub review_uncertain : Conn → Key → ℕ → ReceiptActor → String → Fields → Exec Db Bool
review_uncertain conn key version actor reason evidence = do
  raise_if
      (not (is_service actor.kind) || version == 0 || not (is_given (get "evidence_ref" evidence)))
      value_error
  changes conn key (Transition.review_uncertain reason version) actor reason (some evidence)

abbrev is_empty : String → Bool
is_empty s = str_eq s ""

abbrev mismatch : String
mismatch = "Final object digest mismatch"

unfoldable pub reconcile_known_ref :
    Conn → Key → String → ℕ → ReceiptActor → String → String → String → Exec Db Bool
reconcile_known_ref conn key ref version actor expected observed evidence_ref = do
  raise_if
      (not (is_service actor.kind)
        || is_empty ref
        || is_empty expected
        || is_empty observed
        || is_empty evidence_ref)
      value_error
  let matches : Bool = str_eq expected observed
  changes conn key
      (Transition.reconcile_known_ref
        (if matches then ReceiptStatus.delivered else ReceiptStatus.needs_review)
        (if matches then none else some mismatch) version ref)
      actor (if matches then "Final object verified" else mismatch)
      (some (
        field "evidence_ref" (str evidence_ref)
          (field "expected_digest" (str expected) (field "observed_digest" (str observed) end))))
