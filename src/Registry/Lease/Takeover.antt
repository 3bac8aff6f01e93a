-- ===== src/Registry/Lease/Takeover.antt =====
-- Recovery from a dead worker: `claim_dispatch` over a lease that has lapsed.
use workflow_runtime_core.Base.{ℕ, String, ◌≡◌, refl, true, false, some, arith, str_eq}
use workflow_runtime_core.Exec.{ok}
use workflow_runtime_core.Models.{RunRecord, is_running}
use workflow_runtime_core.Db.{Db, Conn, row, at_least, update_run}
use workflow_runtime_core.Registry.Record.{from_row}
use workflow_runtime_core.Registry.Claim.{dispatch_text, is_live_lease, take_lease, claim_dispatch}
use workflow_runtime_core.Registry.Claim.Exclusive.{
  after_dispatch, dispatch_accepted, row-after_dispatch,
}
use workflow_runtime_core.Registry.Lease.{renew_lease}
use workflow_runtime_core.Registry.Outcome.Cancel.{renew_refused}

-- When the worker of a running dispatch has let its lease lapse, the queue's next delivery of that
-- dispatch takes the run over: `claim_dispatch` returns it under the new owner, and the old
-- worker's `renew_lease` is then refused.
pub takeover :
    (conn conn' : Conn) (k dispatch owner owner' : String) (seconds seconds' : ℕ) (db : Db)
    (r : RunRecord)
    → row k db ≡ some r
    → at_least 2 db.version ≡ true
    → is_running r.status ≡ true
    → str_eq (dispatch_text r.dispatch_id) dispatch ≡ true
    → is_live_lease r.lease_expires_at conn.utcnow ≡ false
    → str_eq owner' owner ≡ false
    → (c : RunRecord) × (db' : Db) × (claim_dispatch conn k dispatch owner' seconds db
        ≡ (ok (some c), db'))
      × (c.lease_owner ≡ some owner')
      × ((renew_lease conn' k owner seconds' db').0 ≡ ok false)
unfolding claim_dispatch update_run
takeover conn conn' k dispatch owner owner' seconds seconds' db r found live runs same lapsed
      other =
    (
      from_row db (take_lease conn owner' seconds r),
      after_dispatch conn k dispatch owner' seconds db live,
      rw found (
          dispatch_accepted conn k dispatch owner' seconds db live r found
            (ground (arith, runs, same, lapsed))),
      refl,
      renew_refused conn' k owner seconds' _ _
          (row-after_dispatch conn k dispatch owner' seconds db live r found) live
          (ground (arith, other)),
    )
