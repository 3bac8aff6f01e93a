-- ===== src/Registry/Lifecycle/Claims.antt =====
-- The claims, and the recovery of a lapsed lease, make one move.
use workflow_runtime_core.Base.{
  ℕ, String, ◌≡◌, refl, inl, inr, Bool, true, false, ◌&&◌, ◌||◌, Option, none, some, arith,
  Bool-cases, is_some,
}
use workflow_runtime_core.Exec.{bind-keeps}
use workflow_runtime_core.Models.{RunRecord, RunStatus, queued, running, is_queued, is_running}
use workflow_runtime_core.Db.{Db, Conn, row, always, at_least, require_version-keeps}
use workflow_runtime_core.Registry.Claim.{
  start, claim_row, claim_run, take_lease, is_claimable, claim_dispatched, claim_dispatch,
}
use workflow_runtime_core.Registry.Lease.{requeue, is_lapsed, requeue_expired_lease, emit_if}
use workflow_runtime_core.Registry.Lifecycle.{Moves, stays, claimed, reclaimed, requeued, Moved}
use workflow_runtime_core.Registry.Lifecycle.Rows.{emit-Moved, step-Moved}

-- A move by the status that a row was found in.
queued-Moves : (s : RunStatus) → is_queued s ≡ true → Moves (some s) (some running)
queued-Moves queued e = claimed
queued-Moves RunStatus.running e = cc e
queued-Moves RunStatus.paused e = cc e
queued-Moves RunStatus.completed e = cc e
queued-Moves RunStatus.failed e = cc e
queued-Moves RunStatus.cancelled e = cc e

claimable-Moves :
    (s : RunStatus) → (is_queued s || is_running s) ≡ true → Moves (some s) (some running)
claimable-Moves queued e = claimed
claimable-Moves RunStatus.running e = reclaimed
claimable-Moves RunStatus.paused e = cc e
claimable-Moves RunStatus.completed e = cc e
claimable-Moves RunStatus.failed e = cc e
claimable-Moves RunStatus.cancelled e = cc e

running-Moves : (s : RunStatus) → is_running s ≡ true → Moves (some s) (some queued)
running-Moves queued e = cc e
running-Moves RunStatus.running e = requeued
running-Moves RunStatus.paused e = cc e
running-Moves RunStatus.completed e = cc e
running-Moves RunStatus.failed e = cc e
running-Moves RunStatus.cancelled e = cc e

module _ (j : String) (conn : Conn) (k : String) where
  claim_row-Moved :
      (db : Db) (o : Option RunRecord) → row k db ≡ o → Moved j db (claim_row conn k o db).1
  unfolding claim_row
  claim_row-Moved db none found = stays _
  claim_row-Moved db (some r) found = elim (Bool-cases (is_queued r.status)) [
    | inl e ↦
        let s =
          step-Moved j db k always (start conn) (λ x. refl)
            (λ x same t. queued-Moves x.status (cc (e, same, found))) in
        let t = emit-Moved j db conn k "claimed" none _ s in
        rw e (
          bind-keeps (Moved j db) _ _ _ s
            (λ a done. bind-keeps (Moved j db) _ _ _ t (λ b done'. t)))
    | inr e ↦ rw e (stays _)
  ]

  pub claim_run-Moved : (db : Db) → Moved j db (claim_run conn k db).1
  unfolding claim_run
  claim_run-Moved db = claim_row-Moved db (row k db) refl

  claim_dispatched-Moved :
      (dispatch owner : String) (seconds : ℕ) (db : Db) (o : Option RunRecord)
      → row k db ≡ o
      → Moved j db (claim_dispatched conn k dispatch owner seconds o db).1
  unfolding claim_dispatched
  claim_dispatched-Moved dispatch owner seconds db none found = stays _
  claim_dispatched-Moved dispatch owner seconds db (some r) found =
      elim (Bool-cases (at_least 2 db.version)) [
        | inl v ↦ rw v (elim (Bool-cases (is_claimable conn dispatch r)) [
          | inl e ↦
              let live : (is_queued r.status || is_running r.status) ≡ true = ground (arith, e) in
              let s =
                step-Moved j db k always (take_lease conn owner seconds) (λ x. refl)
                  (λ x same t. claimable-Moves x.status (cc (live, same, found))) in
              rw e (
                bind-keeps (Moved j db) _ _ _ s (λ a done.
                  let t = emit-Moved j db conn k "claimed" _ _ s in
                  bind-keeps (Moved j db) _ _ _ t (λ b done'. t)))
          | inr e ↦ rw e (stays _)
        ])
        | inr v ↦ rw v (stays _)
      ]

  pub claim_dispatch-Moved :
      (dispatch owner : String) (seconds : ℕ) (db : Db)
      → Moved j db (claim_dispatch conn k dispatch owner seconds db).1
  unfolding claim_dispatch
  claim_dispatch-Moved dispatch owner seconds db =
      claim_dispatched-Moved dispatch owner seconds db (row k db) refl

  pub emit_if-Moved :
      (kind : String) (b : Bool) (before db : Db)
      → Moved j before db
      → Moved j before (emit_if conn k kind b db).1
  emit_if-Moved kind true before db h =
      let t = emit-Moved j before conn k kind none db h in
      bind-keeps (Moved j before) _ _ _ t (λ a done. t)
  emit_if-Moved kind false before db h = h

  pub requeue_expired_lease-Moved : (db : Db) → Moved j db (requeue_expired_lease conn k db).1
  unfolding requeue_expired_lease
  requeue_expired_lease-Moved db = require_version-keeps (Moved j db) _ _ _ (stays _) λ v.
      let s =
        step-Moved j db k (λ r. is_running r.status && is_lapsed r.lease_expires_at conn.now)
          (requeue conn) (λ x. refl) (λ x same t. running-Moves x.status (ground (arith, t))) in
      bind-keeps (Moved j db) _ _ _ s (λ o done. emit_if-Moved "lease_expired" (is_some o) db _ s)
