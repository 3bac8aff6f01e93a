-- ===== src/Messaging/Inbox/Once.antt =====
-- A redelivered event is recorded once: `submit_event`.
use mathlib.Core.Path.{subst}
use workflow_runtime_core.Base.{
  ◌+◌, String, ◌≡◌, refl, ap, ◌∙◌, inl, inr, true, false, Option, none, some, [], ◌∷◌, ◌++◌, arith,
  Bool-cases, str_eq_refl, find?, any, find-append,
}
use workflow_runtime_core.Exec.{Result, ok, err, settle, pure, ◌>>=◌, bind-ok, ok-injective}
use workflow_runtime_core.Db.{Db, Conn, InboxRow, LaunchRecord, at_least, has_id}
use workflow_runtime_core.Messaging.Outbox.{require_messaging}
use workflow_runtime_core.Messaging.Envelope.{Envelope, validate}
use workflow_runtime_core.Messaging.Inbox.{
  SubmitResult, SubmitArgs, from_source, of_envelope, duplicate_of, existing, has_inbox_id,
  inbox_row, insert_inbox, pending_launch, insert_launch, submit_block, raced, is_unique_violation,
  after_block, submit_found, submit_event,
}

-- What a redelivery of a submitted event is told.
abbrev pub repeated : SubmitResult → SubmitResult
repeated s = record s { duplicate = true }

duplicate_of-repeated :
    (o : Option InboxRow) (s : SubmitResult)
    → duplicate_of o ≡ some s
    → duplicate_of o ≡ some (repeated s)
duplicate_of-repeated none s h = cc h
duplicate_of-repeated (some e) s h =
    let told : SubmitResult = record {
      run_id = e.run_id;
      inbox_id = e.inbox_id;
      duplicate = true;
    } in
    let same : told ≡ s = cc h in
    subst (λ (x : SubmitResult). some told ≡ some (repeated x)) same refl

insert_inbox-found :
    (e : InboxRow) (db db' : Db)
    → insert_inbox e db ≡ (ok tt, db')
    → find? (from_source e.service_namespace e.source e.source_message_id) db'.inbox ≡ some e
unfolding insert_inbox
insert_inbox-found e db db' h =
    let p = from_source e.service_namespace e.source e.source_message_id in
    let own : p e ≡ true = ground (
      arith,
      str_eq_refl e.service_namespace,
      str_eq_refl e.source,
      str_eq_refl e.source_message_id,
    ) in
    elim (Bool-cases (any (has_inbox_id e.inbox_id) db.inbox)) [
      | inl a ↦ cc (rw a at h)
      | inr a ↦ elim (Bool-cases (any p db.inbox)) [
        | inl b ↦ cc (rw (a, b) at h)
        | inr b ↦ elim (Bool-cases (any (has_id e.run_id) db.runs)) [
          | inl c ↦
              let same : record db { inbox = db.inbox ++ e ∷ [] } ≡ db' =
                ap (λ q. q.1) (rw (a, b, c) at h) in
              subst (λ d. find? p d.inbox ≡ some e) same
                (find-append p db.inbox (e ∷ []) ∙ (rw b (rw own)))
          | inr c ↦ cc (rw (a, b, c) at h)
        ]
      ]
    ]

insert_launch-inbox : (l : LaunchRecord) (db : Db) → (insert_launch l db).1.inbox ≡ db.inbox
unfolding insert_launch
insert_launch-inbox l db = ground arith

module _ (conn : Conn) (envelope : Envelope) (args : SubmitArgs) where
  -- The statements behind `create_run` in the savepoint's block.
  tail-existing :
      (inbox_id run_id : String) (db db' : Db) (s : SubmitResult)
      → (insert_inbox (inbox_row conn envelope inbox_id run_id) >>= λ u.
            insert_launch (pending_launch conn args run_id) >>= λ v.
            pure (record { run_id = run_id; inbox_id = inbox_id; duplicate = false }))
          db
        ≡ (ok s, db')
      → existing envelope db' ≡ some (repeated s)
  unfolding existing
  tail-existing inbox_id run_id db db' s h =
      let e = inbox_row conn envelope inbox_id run_id in
      let (u, stored, h1) = bind-ok _ _ db db' s h in
      let (v, launched, h2) = bind-ok _ _ _ db' s h1 in
      let d = (insert_inbox e db).1 in
      let found : find? (of_envelope envelope) d.inbox ≡ some e =
        insert_inbox-found e db d (ap (λ o. (o, d)) stored) in
      let base : existing envelope (insert_launch (pending_launch conn args run_id) d).1
          ≡ some (record { run_id = run_id; inbox_id = inbox_id; duplicate = true }) =
        ap (λ rows. duplicate_of (find? (of_envelope envelope) rows))
          (insert_launch-inbox (pending_launch conn args run_id) d)
        ∙ ap duplicate_of found in
      subst (λ x. existing envelope x ≡ some (repeated s)) (ap (λ q. q.1) h2)
        (subst
          (λ x.
            existing envelope (insert_launch (pending_launch conn args run_id) d).1
            ≡ some (repeated x))
          (ok-injective (ap (λ q. q.0) h2)) base)

  block-existing :
      (inbox_id : String) (db db' : Db) (s : SubmitResult)
      → submit_block conn envelope args inbox_id db ≡ (ok s, db')
      → existing envelope db' ≡ some (repeated s)
  unfolding submit_block
  block-existing inbox_id db db' s h =
      let (run, made, h1) = bind-ok _ _ db db' s h in tail-existing inbox_id run.run_id _ db' s h1

  won-existing :
      (o : Option SubmitResult) (db db' : Db) (s : SubmitResult)
      → existing envelope db ≡ o
      → raced o db ≡ (ok s, db')
      → existing envelope db' ≡ some (repeated s)
  unfolding existing
  won-existing none db db' s e h = cc h
  won-existing (some t) db db' s e h =
      subst (λ x. existing envelope x ≡ some (repeated s)) (ap (λ q. q.1) h)
        (duplicate_of-repeated _ s (e ∙ ap some (ok-injective (ap (λ q. q.0) h))))

  after-existing :
      (r : Result SubmitResult) (before after db' : Db) (s : SubmitResult)
      → ((t : SubmitResult) → r ≡ ok t → existing envelope after ≡ some (repeated t))
      → after_block envelope (settle before r after).0 (settle before r after).1 ≡ (ok s, db')
      → existing envelope db' ≡ some (repeated s)
  unfolding after_block
  after-existing (ok t) before after db' s k h =
      subst (λ x. existing envelope x ≡ some (repeated s)) (ap (λ q. q.1) h)
        (subst (λ t'. existing envelope after ≡ some (repeated t')) (ok-injective (ap (λ q. q.0) h))
          (k t refl))
  after-existing (err e) before after db' s k h = elim (Bool-cases (is_unique_violation e)) [
    | inl t ↦ won-existing (existing envelope before) before db' s refl (rw t at h)
    | inr t ↦ cc (rw t at h)
  ]

  found-existing :
      (o : Option SubmitResult) (db db' : Db) (s : SubmitResult)
      → existing envelope db ≡ o
      → submit_found conn envelope args o db ≡ (ok s, db')
      → existing envelope db' ≡ some (repeated s)
  unfolding submit_found existing
  found-existing (some t) db db' s e h =
      subst (λ x. existing envelope x ≡ some (repeated s)) (ap (λ q. q.1) h)
        (duplicate_of-repeated _ s (e ∙ ap some (ok-injective (ap (λ q. q.0) h))))
  found-existing none db db' s e h =
      let counted = record db { minted = db.minted + 1 } in
      let block = submit_block conn envelope args (conn.uuid4 db.minted) counted in
      after-existing block.0 counted block.1 db' s
        (λ t k. block-existing (conn.uuid4 db.minted) counted block.1 t (ap (λ r. (r, block.1)) k))
        h

require-ok :
    {A : Type 0} (f : Unit → Db → Result A × Db) (db db' : Db) (a : A)
    → (require_messaging >>= f) db ≡ (ok a, db')
    → f tt db ≡ (ok a, db')
unfolding ◌>>=◌
require-ok f db db' a h = elim (Bool-cases (at_least 3 db.version)) [
  | inl e ↦ rw e at h
  | inr e ↦ cc (rw e at h)
]

submitted-existing :
    (conn : Conn) (envelope : Envelope) (args : SubmitArgs) (db db' : Db) (s : SubmitResult)
    → submit_event conn envelope args db ≡ (ok s, db')
    → existing envelope db' ≡ some (repeated s)
unfolding submit_event
submitted-existing conn envelope args db db' s h =
    let (u, checked, h1) = bind-ok _ _ db db' s h in
    found-existing conn envelope args (existing envelope db) db db' s refl (
      require-ok (λ v db''. submit_found conn envelope args (existing envelope db'') db'') db db' s
        h1)

-- In the database that a `submit_event` leaves when it returns, a redelivery of the event (the
-- same namespace, source and message id, in any valid envelope, from any session, where the
-- messaging tables are there) gets the same run and inbox row, marked as a duplicate, and
-- changes nothing.
pub submit_event_once :
    (conn conn' : Conn) (envelope envelope' : Envelope) (args args' : SubmitArgs) (db db' : Db)
    (s : SubmitResult)
    → envelope'.service_namespace ≡ envelope.service_namespace
    → envelope'.source ≡ envelope.source
    → envelope'.source_message_id ≡ envelope.source_message_id
    → validate envelope' ≡ ok tt
    → at_least 3 db'.version ≡ true
    → submit_event conn envelope args db ≡ (ok s, db')
    → submit_event conn' envelope' args' db' ≡ (ok (repeated s), db')
unfolding submit_event existing submit_found ◌>>=◌
submit_event_once conn conn' envelope envelope' args args' db db' s same_namespace same_source
      same_id valid live h =
    let found = submitted-existing conn envelope args db db' s h in
    let found' : existing envelope' db' ≡ some (repeated s) =
      rw (same_namespace, same_source, same_id) found in
    rw (valid, live) (rw found')
