-- ===== src/Messaging/Inbox/Atomic.antt =====
-- `submit_event` records everything or nothing.
use mathlib.Core.Path.{subst}
use workflow_runtime_core.Base.{◌+◌, ◌≡◌, refl, inl, inr, Option, none, some, List, Bool-cases}
use workflow_runtime_core.Exec.{Error, Result, ok, err, settle, ◌>>=◌}
use workflow_runtime_core.Models.{RunRecord}
use workflow_runtime_core.Db.{Db, Conn, Event, InboxRow, LaunchRecord, at_least}
use workflow_runtime_core.Messaging.Outbox.{require_messaging}
use workflow_runtime_core.Messaging.Envelope.{Envelope, validate}
use workflow_runtime_core.Messaging.Inbox.{
  SubmitResult, SubmitArgs, existing, raced, is_unique_violation, after_block, submit_found, raised,
  submit_event,
}

-- The tables that a submission writes.
abbrev pub Recorded : Type 0
Recorded = List RunRecord × List Event × List InboxRow × List LaunchRecord

abbrev pub recorded : Db → Recorded
recorded db = (db.runs, db.events, db.inbox, db.launches)

-- A result that is an error, or leaves the tables as they were: what a failure may not break.
Intact : Db → Result SubmitResult × Db → Type 0
Intact before (ok s, db) = Unit
Intact before (err e, db) = recorded db ≡ recorded before

raced-Intact :
    (o : Option SubmitResult) (before db : Db)
    → recorded db ≡ recorded before
    → Intact before (raced o db)
unfolding Intact
raced-Intact none before db h = h
raced-Intact (some s) before db h = tt

module _ (conn : Conn) (envelope : Envelope) (args : SubmitArgs) where
  after-Intact :
      (r : Result SubmitResult) (counted after before : Db)
      → recorded counted ≡ recorded before
      → Intact before (after_block envelope (settle counted r after).0 (settle counted r after).1)
  unfolding after_block Intact
  after-Intact (ok s) counted after before h = tt
  after-Intact (err e) counted after before h = elim (Bool-cases (is_unique_violation e)) [
    | inl t ↦ rw t (raced-Intact _ before counted h)
    | inr t ↦ rw t h
  ]

  found-Intact :
      (o : Option SubmitResult) (db : Db) → Intact db (submit_found conn envelope args o db)
  unfolding submit_found Intact
  found-Intact (some s) db = tt
  found-Intact none db = after-Intact _ (record db { minted = db.minted + 1 }) _ db refl

  event-Intact : (db : Db) → Intact db (submit_event conn envelope args db)
  unfolding submit_event ◌>>=◌ Intact
  event-Intact db = checked (validate envelope)
    where
      checked :
          (r : Result Unit)
          → Intact db (
              (raised r >>= λ u.
              require_messaging >>= λ v d. submit_found conn envelope args (existing envelope d) d)
                db)
      checked (err e) = refl
      checked (ok u) = elim (Bool-cases (at_least 3 db.version)) [
        | inl t ↦ rw t (found-Intact (existing envelope db) db)
        | inr t ↦ rw t
      ]

  -- A `submit_event` that raises, for whatever reason and at whatever statement, has left the runs,
  -- their events, the inbox and the launches as they were.
  pub submit_event-atomic :
      (db db' : Db) (e : Error)
      → submit_event conn envelope args db ≡ (err e, db')
      → recorded db' ≡ recorded db
  unfolding Intact
  submit_event-atomic db db' e h = subst (Intact db) h (event-Intact db)
