-- ===== src/Registry/Claim/Exclusive.antt =====
-- One runner at a time: `claim_run` and `claim_dispatch` of registry.py.
use workflow_runtime_core.Base.{
  ℕ, ◌+◌, ◌*◌, ◌<◌, String, ◌≡◌, refl, sym, ap, ◌∙◌, inl, inr, true, false, Option, none, some,
  arith, Bool-cases,
}
use workflow_runtime_core.Exec.{ok}
use workflow_runtime_core.Json.{Json}
use workflow_runtime_core.Models.{RunRecord, is_queued}
use workflow_runtime_core.Db.{
  Db, Conn, row, always, at_least, update_run, add_event, update_emit_lem, row-updated,
  microseconds,
}
use workflow_runtime_core.Registry.Record.{from_row}
use workflow_runtime_core.Registry.Claim.{
  start, claim_row, claim_run, take_lease, is_claimable, claim_dispatched, claim_dispatch,
  claimed_detail, read_claimed,
}

-- The database after a claim that changed the row by `f`.
abbrev pub after_claim : Conn → String → (RunRecord → RunRecord) → Option Json → Db → Db
after_claim conn k f detail db = add_event conn k "claimed" detail (update_run k always f db).1

module _ (conn : Conn) (k : String) (db : Db) (r : RunRecord) (found : row k db ≡ some r) where
  pub claim_queued :
      is_queued r.status ≡ true
      → claim_row conn k (some r) db
        ≡ (ok (some (from_row db (start conn r))), after_claim conn k (start conn) none db)
  unfolding claim_row update_run
  claim_queued e = rw e (
      update_emit_lem conn k always (start conn) (λ s. refl) db r found "claimed" none read_claimed)

  row-after_claim : row k (after_claim conn k (start conn) none db) ≡ some (start conn r)
  unfolding row
  row-after_claim = row-updated conn k always (start conn) (λ s. refl) db r found

claim_again :
    (conn : Conn) (k : String) (db : Db) (r : RunRecord)
    → row k db ≡ some r
    → is_queued r.status ≡ false
    → claim_run conn k db ≡ (ok none, db)
unfolding claim_run claim_row
claim_again conn k db r found e = rw found (rw e)

claim_row_once :
    (conn conn' : Conn) (k : String) (db db' : Db) (o : Option RunRecord) (c : RunRecord)
    → row k db ≡ o
    → claim_row conn k o db ≡ (ok (some c), db')
    → claim_run conn' k db' ≡ (ok none, db')
unfolding claim_row
claim_row_once conn conn' k db db' none c found h = cc h
claim_row_once conn conn' k db db' (some r) c found h = elim (Bool-cases (is_queued r.status)) [
  | inl e ↦
      let same : after_claim conn k (start conn) none db ≡ db' =
        ap (λ p. p.1) (sym (claim_queued conn k db r found e) ∙ h) in
      rw (← same) (claim_again conn' k _ (start conn r) (row-after_claim conn k db r found) refl)
  | inr e ↦ cc (rw e at h)
]

-- In the database that a `claim_run` leaves which has handed out the run, another `claim_run`
-- of it, from any session, gets nothing and changes nothing.
claim_run_once :
    (conn conn' : Conn) (k : String) (db db' : Db) (c : RunRecord)
    → claim_run conn k db ≡ (ok (some c), db')
    → claim_run conn' k db' ≡ (ok none, db')
unfolding claim_run
claim_run_once conn conn' k db db' c h = claim_row_once conn conn' k db db' (row k db) c refl h

module _ (conn : Conn) (k dispatch owner : String) (seconds : ℕ) (db : Db)
    (live : at_least 2 db.version ≡ true) where
  -- The database after a queue message was accepted.
  abbrev pub after_dispatch : Db
  after_dispatch =
      after_claim conn k (take_lease conn owner seconds) (some (claimed_detail owner dispatch)) db

  module _ (r : RunRecord) (found : row k db ≡ some r) where
    pub dispatch_accepted :
        is_claimable conn dispatch r ≡ true
        → claim_dispatched conn k dispatch owner seconds (some r) db
          ≡ (ok (some (from_row db (take_lease conn owner seconds r))), after_dispatch)
    unfolding claim_dispatched update_run
    dispatch_accepted e =
        rw (live, e)
          (update_emit_lem conn k always (take_lease conn owner seconds) (λ s. refl) db r found
            "claimed" (some (claimed_detail owner dispatch)) read_claimed)

    pub row-after_dispatch : row k after_dispatch ≡ some (take_lease conn owner seconds r)
    unfolding row
    row-after_dispatch =
        row-updated conn k always (take_lease conn owner seconds) (λ s. refl) db r found

dispatch_refused :
    (conn : Conn) (k dispatch owner : String) (seconds : ℕ) (db : Db) (r : RunRecord)
    → row k db ≡ some r
    → at_least 2 db.version ≡ true
    → is_claimable conn dispatch r ≡ false
    → claim_dispatch conn k dispatch owner seconds db ≡ (ok none, db)
unfolding claim_dispatch claim_dispatched
dispatch_refused conn k dispatch owner seconds db r found live e = rw found (rw (live, e))

module _ (conn conn' : Conn) (k dispatch dispatch' owner owner' : String) (seconds seconds' : ℕ)
    (db db' : Db) (c : RunRecord) where
  claim_dispatched_exclusive :
      (o : Option RunRecord)
      → row k db ≡ o
      → claim_dispatched conn k dispatch owner seconds o db ≡ (ok (some c), db')
      → conn'.utcnow < conn.now + seconds * microseconds
      → claim_dispatch conn' k dispatch' owner' seconds' db' ≡ (ok none, db')
  unfolding claim_dispatched update_run
  claim_dispatched_exclusive none found h early = cc h
  claim_dispatched_exclusive (some r) found h early = elim (Bool-cases (at_least 2 db.version)) [
    | inl v ↦ elim (Bool-cases (is_claimable conn dispatch r)) [
      | inl e ↦
          let same : after_dispatch conn k dispatch owner seconds db v ≡ db' =
            ap (λ p. p.1)
              (sym (dispatch_accepted conn k dispatch owner seconds db v r found e) ∙ h) in
          rw (← same) (
            dispatch_refused conn' k dispatch' owner' seconds' _ _
              (row-after_dispatch conn k dispatch owner seconds db v r found) v (ground arith))
      | inr e ↦ cc (rw (v, e) at h)
    ]
    | inr v ↦ cc (rw v at h)
  ]

  -- In the database that a `claim_dispatch` leaves which has handed out the run, any other
  -- claim of the run whose clock reads earlier than the end of the lease, from any worker and
  -- for any dispatch, is refused and changes nothing.
  pub claim_dispatch_exclusive :
      claim_dispatch conn k dispatch owner seconds db ≡ (ok (some c), db')
      → conn'.utcnow < conn.now + seconds * microseconds
      → claim_dispatch conn' k dispatch' owner' seconds' db' ≡ (ok none, db')
  unfolding claim_dispatch
  claim_dispatch_exclusive h early = claim_dispatched_exclusive (row k db) refl h early
