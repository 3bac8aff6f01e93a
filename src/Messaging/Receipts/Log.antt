-- ===== src/Messaging/Receipts/Log.antt =====
-- The event log of a receipt, read back.
use workflow_runtime_core.Base.{
  ℕ, ◌+◌, ◌≡◌, refl, sym, ap, ◌∙◌, inl, inr, true, false, ◌&&◌, Option, none, some, List, [], ◌∷◌,
  ◌++◌, arith, eq_iff, ◌==◌, Bool-cases, if◌then◌else◌,
}
use workflow_runtime_core.Db.{Db, Conn, DeliveryReceipt, ReceiptStatus, ReceiptEvent}
use workflow_runtime_core.Messaging.Receipts.Sql.{
  Audit, write_row, insert_row, receipt, execute_operation,
}
use workflow_runtime_core.Messaging.Receipts.Transition.{
  Key, Transition, has_receipt_key, of_receipt, status_eq, moved,
}
use workflow_runtime_core.Messaging.Receipts.Steps.{ReceiptStep, take_steps}
use workflow_runtime_core.Messaging.Receipts.Keeps.{take_steps-keeps}
use workflow_runtime_core.Messaging.Receipts.Rows.{
  same_key, same_key-eq, receipt_same, keys_apart, find-holds, moved-key, written_same,
  written_other, added_same, added_other, change_row-keeps, open_row-keeps,
}

-- Where the events of a receipt lead: to a version and a status, or nowhere, if one of them does
-- not start where the one before it ended.
pub data Trail : Type 0 where
  empty : Trail
  at : ℕ → ReceiptStatus → Trail
  broken : Trail

abbrev first : Option ReceiptStatus → ℕ → ReceiptStatus → Trail
first none version to = if version == 1 then at 1 to else broken
first (some from) version to = broken

abbrev next : ℕ → ReceiptStatus → Option ReceiptStatus → ℕ → ReceiptStatus → Trail
next v s none version to = broken
next v s (some from) version to =
    if status_eq from s && version == v + 1 then at (v + 1) to else broken

abbrev advance : Trail → ReceiptEvent → Trail
advance empty e = first e.from_status e.event_version e.to_status
advance (at v s) e = next v s e.from_status e.event_version e.to_status
advance broken e = broken

abbrev extend : Key → Trail → ReceiptEvent → Trail
extend key t e = if of_receipt key e then advance t e else t

trail_from : Key → Trail → List ReceiptEvent → Trail
trail_from key t [] = t
trail_from key t (e ∷ events) = trail_from key (extend key t e) events

pub trail : Key → List ReceiptEvent → Trail
unfolding trail_from
trail key events = trail_from key empty events

-- Where the row stands.
abbrev pub place : Option DeliveryReceipt → Trail
place none = empty
place (some r) = at r.event_version r.status

trail_from-append :
    (key : Key) (t : Trail) (events : List ReceiptEvent) (e : ReceiptEvent)
    → trail_from key t (events ++ e ∷ []) ≡ extend key (trail_from key t events) e
unfolding trail_from
trail_from-append key t [] e = refl
trail_from-append key t (f ∷ events) e = trail_from-append key (extend key t f) events e

trail-append :
    (key : Key) (events : List ReceiptEvent) (e : ReceiptEvent)
    → trail key (events ++ e ∷ []) ≡ extend key (trail key events) e
unfolding trail
trail-append key events e = trail_from-append key empty events e

status_eq_refl : (s : ReceiptStatus) → status_eq s s ≡ true
status_eq_refl s = ground arith

number_refl : (n : ℕ) → (n == n) ≡ true
number_refl n = ground arith

same_key_sym : (k j : Key) → same_key k j ≡ false → same_key j k ≡ false
same_key_sym k j h = ground (
  arith,
  h,
  eq_iff k.service_namespace j.service_namespace,
  eq_iff k.destination j.destination,
  eq_iff k.message_id j.message_id,
  eq_iff j.service_namespace k.service_namespace,
  eq_iff j.destination k.destination,
  eq_iff j.message_id k.message_id,
)

module _ (j : Key) where
  abbrev pub Logged : Db → Type 0
  Logged db = trail j db.receipt_events ≡ place (receipt j db)

  Logged-write :
      (conn : Conn) (key : Key) (t : Transition) (audit : Audit) (p : DeliveryReceipt) (db : Db)
      → receipt key db ≡ some p
      → Logged db
      → Logged (write_row conn key t audit p db)
  unfolding receipt moved
  Logged-write conn key t audit p db found h = elim (Bool-cases (same_key key j)) [
    | inl e ↦
        let here : has_receipt_key j p ≡ true =
          find-holds (has_receipt_key j) db.receipts p (rw (← same_key-eq key j e) found) in
        let start : trail j db.receipt_events ≡ at p.event_version p.status =
          h ∙ ap place (receipt_same key j db e ∙ found) in
        trail-append j db.receipt_events _
        ∙ (rw
            (
              start,
              moved-key conn.now t j p,
              here,
              status_eq_refl p.status,
              number_refl (p.event_version + 1),
            )
            (sym (ap place (written_same conn.now t key j p db found e))))
    | inr e ↦
        let elsewhere : has_receipt_key j p ≡ false =
          keys_apart j key p (same_key_sym key j e)
            (find-holds (has_receipt_key key) db.receipts p found) in
        trail-append j db.receipt_events _
        ∙ (rw (moved-key conn.now t j p, elsewhere) h)
        ∙ sym (ap place (written_other conn.now t key j p db found e))
  ]

  Logged-insert :
      (conn : Conn) (key : Key) (audit : Audit) (db : Db)
      → receipt key db ≡ none
      → Logged db
      → Logged (insert_row conn key audit db)
  unfolding receipt
  Logged-insert conn key audit db missing h = elim (Bool-cases (same_key key j)) [
    | inl e ↦
        let start : trail j db.receipt_events ≡ empty =
          h ∙ ap place (receipt_same key j db e ∙ missing) in
        trail-append j db.receipt_events _
        ∙ (rw (start, e) (sym (ap place (added_same conn.now key j db missing e))))
    | inr e ↦
        trail-append j db.receipt_events _
        ∙ (rw e h)
        ∙ sym (ap place (added_other conn.now key j db missing e))
  ]

-- The event log is complete: in a database that starts with no receipts, after any sessions over
-- the functions of receipts.py, the events of every receipt, read in their order, lead exactly to
-- its row. They number the versions from 1 without a gap, the first opens the receipt, each starts
-- at the status where the one before it ended, and the last one's version and status are the
-- row's; and a message without a receipt has no events.
pub log-place :
    (key : Key) (steps : List (Conn × ReceiptStep)) (db : Db)
    → db.receipts ≡ []
    → db.receipt_events ≡ []
    → trail key (take_steps steps db).receipt_events ≡ place (receipt key (take_steps steps db))
unfolding execute_operation receipt trail trail_from
log-place key steps db no_receipts no_events =
    take_steps-keeps (Logged key)
      (λ conn k t audit s proper h.
        change_row-keeps (Logged key) conn k audit s h t (receipt k s)
          λ p found holds. Logged-write key conn k t audit p s found h)
      (λ conn k audit s h.
        open_row-keeps (Logged key) conn k audit s h (receipt k s)
          λ missing. Logged-insert key conn k audit s missing h)
      (λ n s h. h) steps db start
  where
    start : Logged key db
    start = rw (no_events, no_receipts)
