-- ===== src/Registry/Outcome/Cancel.antt =====
-- A cancelled run stops: `cancel_run` against the claims and the renewal of a lease.
use workflow_runtime_core.Base.{
  ℕ, String, ◌≡◌, refl, sym, ap, ◌∙◌, inl, inr, true, false, ◌&&◌, Option, none, some, arith,
  Bool-cases, is_text,
}
use mathlib.Core.Path.{subst}
use workflow_runtime_core.Exec.{ok, ◌>>=◌}
use workflow_runtime_core.Models.{RunRecord, is_running, is_terminal}
use workflow_runtime_core.Db.{
  Db, Conn, row, always, at_least, update_run, update_emit_lem, changed, row-changed,
  version-changed,
}
use workflow_runtime_core.Registry.Claim.{claim_run, claim_row, claim_dispatch, claim_dispatched}
use workflow_runtime_core.Registry.Lease.{renew_lease}
use workflow_runtime_core.Registry.Outcome.{cancel, cancel_row, cancel_run, read_updated}

abbrev after_cancel : Conn → String → Db → Db
after_cancel conn k db = changed conn k (cancel conn) "cancelled" none db

cancel_accepted :
    (conn : Conn) (k : String) (db : Db) (r : RunRecord)
    → row k db ≡ some r
    → is_terminal r.status ≡ false
    → (cancel_row conn k (some r) db).1 ≡ after_cancel conn k db
unfolding cancel_row
cancel_accepted conn k db r found e = rw e (
    ap (λ p. p.1)
      (update_emit_lem conn k always (cancel conn) (λ s. refl) db r found "cancelled" none
        read_updated))

unfoldable pub Cancelled : Conn → String → Db → RunRecord → Db → Type 0
Cancelled conn k db r db' = (row k db' ≡ some (cancel conn r)) × (db'.version ≡ db.version)

after_cancel-Cancelled :
    (conn : Conn) (k : String) (db : Db) (r : RunRecord)
    → row k db ≡ some r
    → Cancelled conn k db r (after_cancel conn k db)
unfolding Cancelled
after_cancel-Cancelled conn k db r found = (
  row-changed conn k (cancel conn) "cancelled" none db r (λ s. refl) found,
  version-changed conn k (cancel conn) "cancelled" none db,
)

-- What a cancellation that succeeded leaves behind.
pub cancel_row-Cancelled :
    (conn : Conn) (k : String) (db db' : Db) (c : RunRecord) (o : Option RunRecord)
    → row k db ≡ o
    → cancel_row conn k o db ≡ (ok c, db')
    → (r : RunRecord) × Cancelled conn k db r db'
unfolding cancel_row
cancel_row-Cancelled conn k db db' c none found h = cc h
cancel_row-Cancelled conn k db db' c (some r) found h = elim (Bool-cases (is_terminal r.status)) [
  | inl e ↦ cc (rw e at h)
  | inr e ↦ (
    r,
    subst (Cancelled conn k db r) (sym (cancel_accepted conn k db r found e) ∙ ap (λ p. p.1) h)
        (after_cancel-Cancelled conn k db r found),
  )
]

pub renew_refused :
    (conn : Conn) (k owner : String) (seconds : ℕ) (db : Db) (r : RunRecord)
    → row k db ≡ some r
    → at_least 2 db.version ≡ true
    → (is_text r.lease_owner owner && is_running r.status) ≡ false
    → (renew_lease conn k owner seconds db).0 ≡ ok false
unfolding renew_lease ◌>>=◌ update_run
renew_refused conn k owner seconds db r found live e = rw live (rw found (rw e))

module _ (conn conn' : Conn) (k dispatch owner : String) (seconds : ℕ) (db db' : Db)
    (c : RunRecord) where
  stopped :
      (r : RunRecord)
      → row k db' ≡ some (cancel conn r)
      → at_least 2 db'.version ≡ true
      → (claim_run conn' k db' ≡ (ok none, db'))
        × ((claim_dispatch conn' k dispatch owner seconds db' ≡ (ok none, db'))
            × ((renew_lease conn' k owner seconds db').0 ≡ ok false))
  unfolding claim_run claim_row claim_dispatch claim_dispatched
  stopped r found live = (
    rw found,
    (
      rw found (rw live),
      renew_refused conn' k owner seconds db' (cancel conn r) found live (ground arith),
    ),
  )

  -- In the database that a `cancel_run` leaves when it returns, on a schema with the data
  -- plane, nobody gets the run from `claim_run` or from `claim_dispatch`, which change
  -- nothing, and `renew_lease` tells a worker that the lease is lost.
  pub cancel_run_stops :
      cancel_run conn k db ≡ (ok c, db')
      → at_least 2 db.version ≡ true
      → (claim_run conn' k db' ≡ (ok none, db'))
        × ((claim_dispatch conn' k dispatch owner seconds db' ≡ (ok none, db'))
            × ((renew_lease conn' k owner seconds db').0 ≡ ok false))
  unfolding cancel_run Cancelled
  cancel_run_stops h live =
      let (r, (found, same)) = cancel_row-Cancelled conn k db db' c (row k db) refl h in
      stopped r found (rw same live)
