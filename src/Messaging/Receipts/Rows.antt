-- ===== src/Messaging/Receipts/Rows.antt =====
-- What the statements of _receipt_sql.py do to the row of one receipt.
use workflow_runtime_core.Base.{
  ℕ, ◌+◌, ◌≡◌, refl, sym, ap, ◌∙◌, inl, inr, Bool, true, false, ◌&&◌, Option, none, some, List, [],
  ◌∷◌, ◌++◌, arith, eq_iff, str_eq, str_eq_refl, Bool-cases, find?, any, update, hit, find-update,
  find-append,
}
use mathlib.Core.Path.{subst}
use workflow_runtime_core.Db.{Db, Conn, DeliveryReceipt}
use workflow_runtime_core.Messaging.Receipts.Sql.{
  has_version, Audit, change_row, write_row, execute_operation, receipt, new_receipt, open_row,
  insert_row,
}
use workflow_runtime_core.Messaging.Receipts.Transition.{
  Key, has_receipt_key, Transition, predicate, assignments, moved,
}
use workflow_runtime_core.Messaging.Receipts.Keeps.{is_proper, take_steps-keeps}
use workflow_runtime_core.Messaging.Receipts.Steps.{ReceiptStep, take_steps}

abbrev pub same_key : Key → Key → Bool
same_key k j =
    str_eq k.service_namespace j.service_namespace
    && str_eq k.destination j.destination
    && str_eq k.message_id j.message_id

pub same_key-eq : (k j : Key) → same_key k j ≡ true → k ≡ j
same_key-eq k j h = ground (
  arith,
  h,
  eq_iff k.service_namespace j.service_namespace,
  eq_iff k.destination j.destination,
  eq_iff k.message_id j.message_id,
)

pub receipt_same : (k j : Key) (db : Db) → same_key k j ≡ true → receipt j db ≡ receipt k db
receipt_same k j db e = ap (λ i. receipt i db) (sym (same_key-eq k j e))

pub same_key_refl : (k : Key) → same_key k k ≡ true
same_key_refl k =
    rw (str_eq_refl k.service_namespace, str_eq_refl k.destination, str_eq_refl k.message_id)

-- A row has one key.
pub keys_apart :
    (k j : Key) (r : DeliveryReceipt)
    → same_key k j ≡ false
    → has_receipt_key j r ≡ true
    → has_receipt_key k r ≡ false
keys_apart k j r apart h = ground (
  arith,
  apart,
  h,
  eq_iff k.service_namespace j.service_namespace,
  eq_iff k.destination j.destination,
  eq_iff k.message_id j.message_id,
  eq_iff r.service_namespace j.service_namespace,
  eq_iff r.destination j.destination,
  eq_iff r.message_id j.message_id,
  eq_iff r.service_namespace k.service_namespace,
  eq_iff r.destination k.destination,
  eq_iff r.message_id k.message_id,
)

pub find-holds :
    {A : Type 0} (p : A → Bool) (rows : List A) (a : A) → find? p rows ≡ some a → p a ≡ true
find-holds p [] a e = cc e
find-holds p (x ∷ rows) a e = elim (Bool-cases (p x)) [
  | inl t ↦ let same : x ≡ a = cc (rw t at e) in rw (← same) t
  | inr t ↦ find-holds p rows a (rw t at e)
]

-- A transition keeps the key.
pub moved-key :
    (now : ℕ) (t : Transition) (j : Key) (r : DeliveryReceipt)
    → has_receipt_key j (moved now t r) ≡ has_receipt_key j r
unfolding moved assignments
moved-key now (Transition.lease_expired error) j r = refl
moved-key now (Transition.claim owner seconds) j r = refl
moved-key now (Transition.renew_lease seconds owner epoch) j r = refl
moved-key now (Transition.start_effect owner epoch) j r = refl
moved-key now (Transition.record_provider_ref ref owner epoch) j r = refl
moved-key now (Transition.settled kind ref error delay owner epoch) j r = refl
moved-key now (Transition.block error) j r = refl
moved-key now (Transition.review_uncertain error version) j r = refl
moved-key now (Transition.reconcile_known_ref status error version ref) j r = refl
moved-key now (Transition.resolved disposition status error expected version) j r = refl

-- The row of `j` where the transition of the key `k` writes.
module _ (now : ℕ) (t : Transition) (k j : Key) (p : DeliveryReceipt) (db : Db)
    (found : receipt k db ≡ some p) where
  abbrev pub written : Db → Option DeliveryReceipt
  written db' = find? (has_receipt_key j) (update (has_receipt_key k) (moved now t) db'.receipts)

  pub written_same : same_key k j ≡ true → written db ≡ some (moved now t p)
  unfolding receipt
  written_same e =
      let same = same_key-eq k j e in
      let found_j : find? (has_receipt_key j) db.receipts ≡ some p = rw (← same) found in
      find-update (has_receipt_key j) (has_receipt_key k) (moved now t) db.receipts
        (λ r. moved-key now t j r)
      ∙ (rw (found_j, find-holds (has_receipt_key k) db.receipts p found))

  pub written_other : same_key k j ≡ false → written db ≡ receipt j db
  unfolding receipt
  written_other e =
      find-update (has_receipt_key j) (has_receipt_key k) (moved now t) db.receipts
        (λ r. moved-key now t j r)
      ∙ go (find? (has_receipt_key j) db.receipts) refl
    where
      go :
          (o : Option DeliveryReceipt)
          → find? (has_receipt_key j) db.receipts ≡ o
          → hit (has_receipt_key k) (moved now t) o ≡ o
      go none f = refl
      go (some r) f = rw (keys_apart k j r e (find-holds (has_receipt_key j) db.receipts r f))

-- A transition of the receipt's own.
pub receipt-write :
    (conn : Conn) (key : Key) (t : Transition) (audit : Audit) (p : DeliveryReceipt) (db : Db)
    → receipt key db ≡ some p
    → receipt key (write_row conn key t audit p db) ≡ some (moved conn.now t p)
unfolding receipt
receipt-write conn key t audit p db found =
    written_same conn.now t key key p db found (same_key_refl key)

find-none : {A : Type 0} (p : A → Bool) (rows : List A) → find? p rows ≡ none → any p rows ≡ false
find-none p [] e = refl
find-none p (x ∷ rows) e = elim (Bool-cases (p x)) [
  | inl t ↦ cc (rw t at e)
  | inr t ↦ rw t (find-none p rows (rw t at e))
]

find-added :
    {A : Type 0} (p : A → Bool) (a : A) (rows : List A)
    → p a ≡ false
    → find? p (rows ++ a ∷ []) ≡ find? p rows
find-added p a [] e = rw e
find-added p a (x ∷ rows) e = elim (Bool-cases (p x)) [
  | inl t ↦ rw t
  | inr t ↦ rw t (find-added p a rows e)
]

-- The row of `j` where a receipt under the key `k` is new.
module _ (now : ℕ) (k j : Key) (db : Db) (missing : receipt k db ≡ none) where
  abbrev pub added : Option DeliveryReceipt
  added = find? (has_receipt_key j) (db.receipts ++ new_receipt now k ∷ [])

  pub added_same : same_key k j ≡ true → added ≡ some (new_receipt now k)
  unfolding receipt
  added_same e =
      let absent : find? (has_receipt_key j) db.receipts ≡ none =
        rw (← same_key-eq k j e) missing in
      find-append (has_receipt_key j) db.receipts (new_receipt now k ∷ [])
      ∙ (rw (find-none (has_receipt_key j) db.receipts absent, e))

  pub added_other : same_key k j ≡ false → added ≡ receipt j db
  unfolding receipt
  added_other e = find-added (has_receipt_key j) (new_receipt now k) db.receipts e

-- The outcomes of a transition and of an opening.
module _ (P : Db → Type 0) (conn : Conn) (key : Key) (audit : Audit) (db : Db) (h : P db) where
  pub change_row-keeps :
      (t : Transition) (o : Option DeliveryReceipt)
      → ((p : DeliveryReceipt)
          → o ≡ some p
          → predicate conn.now t p ≡ true
          → P (write_row conn key t audit p db))
      → P (change_row conn key t audit o db).1
  unfolding change_row
  change_row-keeps t none k = h
  change_row-keeps t (some p) k = elim (Bool-cases (predicate conn.now t p)) [
    | inl e ↦ elim (Bool-cases (any (has_version key (p.event_version + 1)) db.receipt_events)) [
      | inl f ↦ rw (e, f) h
      | inr f ↦ rw (e, f) (k p refl e)
    ]
    | inr e ↦ rw e h
  ]

  pub open_row-keeps :
      (o : Option DeliveryReceipt)
      → (o ≡ none → P (insert_row conn key audit db))
      → P (open_row conn key audit o db).1
  unfolding open_row
  open_row-keeps (some r) k = h
  open_row-keeps none k = elim (Bool-cases (any (has_version key 1) db.receipt_events)) [
    | inl f ↦ rw f h
    | inr f ↦ rw f (k refl)
  ]

module _ (j : Key) (Q : Option DeliveryReceipt → Type 0) where
  abbrev pub OfReceipt : Db → Type 0
  OfReceipt db = Q (receipt j db)

  -- What the transitions keep of a row, the statements keep of the row of every key.
  pub operated-row :
      (conn : Conn) (key : Key) (t : Transition) (audit : Audit) (db : Db)
      → ((r : DeliveryReceipt)
          → predicate conn.now t r ≡ true
          → Q (some r)
          → Q (some (moved conn.now t r)))
      → OfReceipt db
      → OfReceipt (execute_operation conn key t audit db).1
  unfolding execute_operation receipt
  operated-row conn key t audit db keeps h =
      change_row-keeps OfReceipt conn key audit db h t (receipt key db) λ p found holds.
        elim (Bool-cases (same_key key j)) [
          | inl e ↦
              subst Q (sym (written_same conn.now t key j p db found e))
                (keeps p holds (subst Q (receipt_same key j db e ∙ found) h))
          | inr e ↦ subst Q (sym (written_other conn.now t key j p db found e)) h
        ]

  pub opened-row :
      (conn : Conn) (key : Key) (audit : Audit) (db : Db)
      → (Q none → Q (some (new_receipt conn.now j)))
      → OfReceipt db
      → OfReceipt (open_row conn key audit (receipt key db) db).1
  unfolding receipt
  opened-row conn key audit db keeps h =
      open_row-keeps OfReceipt conn key audit db h (receipt key db) λ missing.
        elim (Bool-cases (same_key key j)) [
          | inl e ↦
              subst Q
                (sym (
                  added_same conn.now key j db missing e
                  ∙ ap (λ k. some (new_receipt conn.now k)) (same_key-eq key j e)))
                (keeps (subst Q (receipt_same key j db e ∙ missing) h))
          | inr e ↦ subst Q (sym (added_other conn.now key j db missing e)) h
        ]

-- What every transition keeps of a row holds of it through any sessions.
pub OfReceipt-steps :
    (j : Key) (Q : Option DeliveryReceipt → Type 0)
    → ((now : ℕ) (t : Transition) (r : DeliveryReceipt)
        → is_proper t ≡ true
        → predicate now t r ≡ true
        → Q (some r)
        → Q (some (moved now t r)))
    → ((now : ℕ) → Q none → Q (some (new_receipt now j)))
    → (steps : List (Conn × ReceiptStep)) (db : Db) → OfReceipt j Q db
    → OfReceipt j Q (take_steps steps db)
unfolding receipt
OfReceipt-steps j Q keeps opens =
    take_steps-keeps (OfReceipt j Q)
      (λ conn key t audit db proper.
        operated-row j Q conn key t audit db (λ r holds. keeps conn.now t r proper holds))
      (λ conn key audit db. opened-row j Q conn key audit db (opens conn.now)) (λ n db h. h)
