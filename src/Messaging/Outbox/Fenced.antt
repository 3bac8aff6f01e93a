-- ===== src/Messaging/Outbox/Fenced.antt =====
-- A publisher whose claim is gone cannot settle the message: the guards of `mark_delivered` and
-- `mark_failed`.
use workflow_runtime_core.Base.{
  ℕ, ◌+◌, String, ◌≡◌, refl, ap, inl, inr, Bool, true, false, ◌&&◌, List, [], ◌∷◌, arith,
  Bool-cases, is_text, any, update, All, All-map,
}
use workflow_runtime_core.Exec.{ok, ◌>>=◌}
use workflow_runtime_core.Db.{Db, Conn, at_least}
use workflow_runtime_core.Messaging.Outbox.{
  is_publishing, has_outbox_id, is_held, deliver, mark_delivered, mark_failed,
}

-- An UPDATE whose WHERE clause holds of no row.
any-none :
    {A : Type 0} (p : A → Bool) (rows : List A) → All (λ a. p a ≡ false) rows → any p rows ≡ false
any-none p [] h = refl
any-none p (a ∷ rows) h = rw h.0 (any-none p rows h.1)

update-none :
    {A : Type 0} (p : A → Bool) (f : A → A) (rows : List A)
    → All (λ a. p a ≡ false) rows
    → update p f rows ≡ rows
update-none p f [] h = refl
update-none p f (a ∷ rows) h = rw h.0 (ap (λ r. a ∷ r) (update-none p f rows h.1))

-- Nobody publishes the message under the name `owner`.
abbrev pub IsLost : String → String → Db → Type 0
IsLost outbox_id owner db =
    All
      (λ m.
        has_outbox_id outbox_id m ≡ true
        → (is_text m.lease_owner owner && is_publishing m.status) ≡ false)
      db.outbox

lost-unheld :
    (outbox_id owner : String) (db : Db)
    → IsLost outbox_id owner db
    → All (λ m. is_held outbox_id owner m ≡ false) db.outbox
lost-unheld outbox_id owner db h =
    All-map _ _ db.outbox
      (λ m k. elim (Bool-cases (has_outbox_id outbox_id m)) [
        | inl e ↦ let t = k e in ground (arith, e, t)
        | inr e ↦ rw e
      ])
      h

-- Where no row of the message is being published under this owner's lease (it lapsed and was
-- reconciled, or another publisher has it), `mark_delivered` and `mark_failed` report that and
-- change no message.
pub settle-lost :
    (conn : Conn) (outbox_id owner error : String) (attempts : ℕ) (db : Db)
    → at_least 3 db.version ≡ true
    → IsLost outbox_id owner db
    → (mark_delivered conn outbox_id owner db ≡ (ok false, db))
      × (mark_failed conn outbox_id owner error attempts db
          ≡ (ok false, record db { drawn = db.drawn + 1 }))
unfolding mark_delivered mark_failed ◌>>=◌
settle-lost conn outbox_id owner error attempts db live lost =
    let none_held = lost-unheld outbox_id owner db lost in
    rw (live, any-none (is_held outbox_id owner) db.outbox none_held)
      (
        rw (update-none (is_held outbox_id owner) (deliver conn) db.outbox none_held),
        rw (update-none (is_held outbox_id owner) _ db.outbox none_held),
      )
