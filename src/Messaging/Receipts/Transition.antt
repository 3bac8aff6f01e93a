-- ===== src/Messaging/Receipts/Transition.antt =====
-- messaging/_receipt_sql.py: the transitions of a receipt, the condition and the effect of each.
use workflow_runtime_core.Base.{
  ℕ, ◌+◌, ◌*◌, String, Bool, true, false, ◌&&◌, ◌||◌, Option, none, some, ltb, leb, ◌==◌, str_eq,
  is_text, is_some, is_none,
}
use workflow_runtime_core.Db.{DeliveryReceipt, ReceiptStatus, ReceiptEvent, microseconds}

-- The primary key of delivery_receipts.
pub record Key : Type 0 where
  pub service_namespace : String
  pub destination : String
  pub message_id : String

abbrev pub has_receipt_key : Key → DeliveryReceipt → Bool
has_receipt_key key r =
    str_eq r.service_namespace key.service_namespace
    && str_eq r.destination key.destination
    && str_eq r.message_id key.message_id

abbrev pub of_receipt : Key → ReceiptEvent → Bool
of_receipt key e =
    str_eq e.service_namespace key.service_namespace
    && str_eq e.destination key.destination
    && str_eq e.message_id key.message_id

-- The six settlements of a live claim.
pub data Settlement : Type 0 where
  delivered failed uncertain needs_review blocked pending : Settlement

-- The dispositions of `resolve`.
pub data Disposition : Type 0 where
  delivered blocked retry_new_generation : Disposition

-- A transition with the values that its statement is given: the keys of OPERATIONS. A settlement
-- has the reference, the error, the delay, and then its fences: the owner and the epoch.
pub data Transition : Type 0 where
  lease_expired : String → Transition
  claim : String → ℕ → Transition
  renew_lease : ℕ → String → ℕ → Transition
  start_effect : String → ℕ → Transition
  record_provider_ref : String → String → ℕ → Transition
  settled : Settlement → Option String → Option String → ℕ → String → ℕ → Transition
  block : String → Transition
  review_uncertain : String → ℕ → Transition
  reconcile_known_ref : ReceiptStatus → Option String → ℕ → String → Transition
  resolved : Disposition → ReceiptStatus → String → ReceiptStatus → ℕ → Transition

abbrev settlement_name : Settlement → String
settlement_name Settlement.delivered = "delivered"
settlement_name Settlement.failed = "failed"
settlement_name Settlement.uncertain = "uncertain"
settlement_name Settlement.needs_review = "needs_review"
settlement_name Settlement.blocked = "blocked"
settlement_name Settlement.pending = "pending"

abbrev disposition_name : Disposition → String
disposition_name Disposition.delivered = "resolve:delivered"
disposition_name Disposition.blocked = "resolve:blocked"
disposition_name Disposition.retry_new_generation = "resolve:retry_new_generation"

unfoldable pub transition_name : Transition → String
transition_name (lease_expired error) = "lease_expired"
transition_name (claim owner seconds) = "claim"
transition_name (renew_lease seconds owner epoch) = "renew_lease"
transition_name (start_effect owner epoch) = "start_effect"
transition_name (record_provider_ref ref owner epoch) = "record_provider_ref"
transition_name (settled kind ref error delay owner epoch) = settlement_name kind
transition_name (block error) = "block"
transition_name (review_uncertain error version) = "review_uncertain"
transition_name (reconcile_known_ref status error version ref) = "reconcile_known_ref"
transition_name (resolved disposition status error expected version) = disposition_name disposition

abbrev pub settled_status : Settlement → ReceiptStatus
settled_status Settlement.delivered = ReceiptStatus.delivered
settled_status Settlement.failed = ReceiptStatus.failed
settled_status Settlement.uncertain = ReceiptStatus.uncertain
settled_status Settlement.needs_review = ReceiptStatus.needs_review
settled_status Settlement.blocked = ReceiptStatus.blocked
settled_status Settlement.pending = ReceiptStatus.pending

abbrev pub is_sending : ReceiptStatus → Bool
is_sending ReceiptStatus.sending = true
is_sending _ = false

-- status IN ('pending', 'failed')
abbrev pub is_open : ReceiptStatus → Bool
is_open ReceiptStatus.pending = true
is_open ReceiptStatus.failed = true
is_open _ = false

abbrev pub is_uncertain : ReceiptStatus → Bool
is_uncertain ReceiptStatus.uncertain = true
is_uncertain _ = false

abbrev rank : ReceiptStatus → ℕ
rank ReceiptStatus.pending = 0
rank ReceiptStatus.sending = 1
rank ReceiptStatus.delivered = 2
rank ReceiptStatus.failed = 3
rank ReceiptStatus.uncertain = 4
rank ReceiptStatus.blocked = 5
rank ReceiptStatus.needs_review = 6

abbrev pub status_eq : ReceiptStatus → ReceiptStatus → Bool
status_eq a b = rank a == rank b

-- lease_expires_at > now(), lease_expires_at <= now()
abbrev pub is_running_lease : Option ℕ → ℕ → Bool
is_running_lease none now = false
is_running_lease (some expires) now = ltb now expires

abbrev pub is_lapsed_lease : Option ℕ → ℕ → Bool
is_lapsed_lease none now = false
is_lapsed_lease (some expires) now = leb expires now

-- LIVE
abbrev pub is_live : ℕ → String → ℕ → DeliveryReceipt → Bool
is_live now owner epoch p =
    is_sending p.status
    && is_text p.lease_owner owner
    && p.claim_epoch == epoch
    && is_running_lease p.lease_expires_at now

-- p.provider_ref IS NULL OR ref IS NULL OR p.provider_ref = ref
abbrev agrees : Option String → Option String → Bool
agrees none ref = true
agrees (some held) none = true
agrees (some held) (some ref) = str_eq held ref

-- The argument of `_settlement`: what a settlement asks for beyond a live claim.
abbrev pub settlement_extra : Settlement → Option String → DeliveryReceipt → Bool
settlement_extra Settlement.delivered ref p =
    is_some p.effect_started_at && (is_some p.provider_ref || is_none ref)
settlement_extra Settlement.failed ref p = is_none p.provider_ref
settlement_extra Settlement.uncertain ref p = true
settlement_extra Settlement.needs_review ref p = true
settlement_extra Settlement.blocked ref p = is_none p.effect_started_at && is_none p.provider_ref
settlement_extra Settlement.pending ref p = is_none p.effect_started_at && is_none p.provider_ref

-- The `predicate` of each operation, on the row as it was.
unfoldable pub predicate : ℕ → Transition → DeliveryReceipt → Bool
predicate now (lease_expired error) p =
    is_sending p.status && is_lapsed_lease p.lease_expires_at now
predicate now (claim owner seconds) p = is_open p.status && is_none p.provider_ref
predicate now (renew_lease seconds owner epoch) p = is_live now owner epoch p
predicate now (start_effect owner epoch) p =
    is_live now owner epoch p && is_none p.effect_started_at && is_none p.provider_ref
predicate now (record_provider_ref ref owner epoch) p =
    is_live now owner epoch p && is_some p.effect_started_at && agrees p.provider_ref (some ref)
predicate now (settled kind ref error delay owner epoch) p =
    is_live now owner epoch p && settlement_extra kind ref p && agrees p.provider_ref ref
predicate now (block error) p = is_open p.status
predicate now (review_uncertain error version) p =
    is_uncertain p.status && p.event_version == version
predicate now (reconcile_known_ref status error version ref) p =
    is_uncertain p.status && p.event_version == version && is_text p.provider_ref ref
predicate now (resolved disposition status error expected version) p =
    status_eq p.status expected && p.event_version == version

abbrev coalesce {ℓ} : {A : Type ℓ} → Option A → Option A → Option A
coalesce none b = b
coalesce (some a) b = some a

abbrev recorded_at : Option String → Option ℕ → ℕ → Option ℕ
recorded_at none at now = none
recorded_at (some ref) at now = coalesce at (some now)

abbrev effect_after : Settlement → Option ℕ → Option ℕ
effect_after Settlement.failed started = none
effect_after Settlement.delivered started = started
effect_after Settlement.uncertain started = started
effect_after Settlement.needs_review started = started
effect_after Settlement.blocked started = started
effect_after Settlement.pending started = started

abbrev released : ReceiptStatus → Option String → DeliveryReceipt → DeliveryReceipt
released status error r = record r {
  status = status;
  lease_owner = none;
  lease_expires_at = none;
  last_error = error;
}

-- The `assignments` of each operation.
unfoldable pub assignments : ℕ → Transition → DeliveryReceipt → DeliveryReceipt
assignments now (lease_expired error) r = released ReceiptStatus.uncertain (some error) r
assignments now (claim owner seconds) r = record r {
  status = ReceiptStatus.sending;
  attempts = r.attempts + 1;
  claim_epoch = r.claim_epoch + 1;
  lease_owner = some owner;
  lease_expires_at = some (now + seconds * microseconds);
}
assignments now (renew_lease seconds owner epoch) r = record r {
  lease_expires_at = some (now + seconds * microseconds);
}
assignments now (start_effect owner epoch) r = record r { effect_started_at = some now }
assignments now (record_provider_ref ref owner epoch) r = record r {
  provider_ref = some ref;
  provider_ref_recorded_at = coalesce r.provider_ref_recorded_at (some now);
}
assignments now (settled kind ref error delay owner epoch) r = record r {
  status = settled_status kind;
  provider_ref = coalesce r.provider_ref ref;
  provider_ref_recorded_at =
      recorded_at (coalesce r.provider_ref ref) r.provider_ref_recorded_at now;
  lease_owner = none;
  lease_expires_at = none;
  last_error = error;
  next_attempt_at = now + delay;
  effect_started_at = effect_after kind r.effect_started_at;
}
assignments now (block error) r = record r {
  status = ReceiptStatus.blocked;
  last_error = some error;
}
assignments now (review_uncertain error version) r =
    released ReceiptStatus.needs_review (some error) r
assignments now (reconcile_known_ref status error version ref) r = released status error r
assignments now (resolved disposition status error expected version) r =
    released status (some error) r

-- The row after the UPDATE of `Operation.query`.
unfoldable pub moved : ℕ → Transition → DeliveryReceipt → DeliveryReceipt
moved now t r =
    let r' = assignments now t r in
    record r' { event_version = r.event_version + 1; updated_at = now }
