-- ===== src/Registry/Lease/Acknowledge.antt =====
-- A worker acknowledges a cancellation: `release_cancelled_attempt_lease` and what
-- `RunRecord.cancellation_state` says of it.
use workflow_runtime_core.Base.{
  ℕ, String, ◌≡◌, refl, ap, ◌∙◌, inl, inr, Bool, true, false, ◌&&◌, none, some, arith, Bool-cases,
  is_text, is_text_iff, is_some, ◌==◌, if◌then◌else◌,
}
use mathlib.Core.Logic.{◌↔◌}
use workflow_runtime_core.Exec.{ok, ◌>>=◌}
use workflow_runtime_core.Models.{RunRecord, is_cancelled, cancellation_state, confirmed}
use workflow_runtime_core.Db.{
  Db, Conn, row, at_least, update_run, add_event, row-updated, result-updated, emit-updated,
}
use workflow_runtime_core.Registry.Lease.{drop_lease, release_cancelled_attempt_lease}

abbrev is_own : ℕ → String → RunRecord → Bool
is_own n owner r = (r.attempt_no == n) && is_cancelled r.status && is_text r.lease_owner owner

-- The worker holds the lease of the attempt of a cancelled run.
abbrev pub Holds : ℕ → String → RunRecord → Type 0
Holds n owner r = (r.attempt_no ≡ n) × (is_cancelled r.status ≡ true) × (r.lease_owner ≡ some owner)

module _ (conn : Conn) (k : String) (n : ℕ) (owner : String) (db : Db) (r : RunRecord)
    (found : row k db ≡ some r) (live : at_least 2 db.version ≡ true) where
  accepted :
      is_own n owner r ≡ true
      → release_cancelled_attempt_lease conn k n owner db ≡ (
        ok true,
        add_event conn k "lease_released" none
            (update_run k (is_own n owner) (drop_lease conn) db).1,
      )
  unfolding release_cancelled_attempt_lease ◌>>=◌
  accepted e = rw live (
      rw (result-updated conn k (is_own n owner) (drop_lease conn) (λ s. refl) db r found) (
        rw e (
          rw (
            emit-updated conn k (is_own n owner) (drop_lease conn) (λ s. refl) db r found
              "lease_released" none))))

  refused :
      is_own n owner r ≡ false → (release_cancelled_attempt_lease conn k n owner db).0 ≡ ok false
  unfolding release_cancelled_attempt_lease ◌>>=◌
  refused e =
      rw live (
        rw (result-updated conn k (is_own n owner) (drop_lease conn) (λ s. refl) db r found) (rw e))

  kept_row :
      is_own n owner r ≡ false
      → row k (release_cancelled_attempt_lease conn k n owner db).1 ≡ some r
  unfolding release_cancelled_attempt_lease ◌>>=◌
  kept_row e = rw live (
      rw (result-updated conn k (is_own n owner) (drop_lease conn) (λ s. refl) db r found) (
        rw e (
          row-updated conn k (is_own n owner) (drop_lease conn) (λ s. refl) db r found
          ∙ rw e refl)))

  released_row :
      is_own n owner r ≡ true
      → row k (release_cancelled_attempt_lease conn k n owner db).1 ≡ some (drop_lease conn r)
  unfolding row
  released_row e =
      ap (λ p. row k p.1) (accepted e)
      ∙ row-updated conn k (is_own n owner) (drop_lease conn) (λ s. refl) db r found
      ∙ rw e refl

  own-Holds : (is_own n owner r ≡ true) ↔ Holds n owner r
  own-Holds = (
    λ h. (
      ground (arith, h),
      ground (arith, h),
      (is_text_iff r.lease_owner owner).0 (ground (arith, h)),
    ),
    λ v. let named = (is_text_iff r.lease_owner owner).1 v.2 in ground (arith, named, v.0, v.1),
  )

  -- The release of a run with a workspace, on a schema with the data plane, is granted exactly to
  -- the worker that holds the lease of this attempt of the cancelled run. Then the run has no lease
  -- and its cancellation reads as confirmed; for anyone else the run is as it was.
  pub release-confirmed :
      (now : ℕ)
      → is_some r.workspace_id ≡ true
      → (((release_cancelled_attempt_lease conn k n owner db).0 ≡ ok true) ↔ Holds n owner r)
        × (row k (release_cancelled_attempt_lease conn k n owner db).1
            ≡ some (if is_own n owner r then drop_lease conn r else r))
        × (cancellation_state (if is_own n owner r then drop_lease conn r else r) now
            ≡ (if is_own n owner r then confirmed else cancellation_state r now))
  unfolding cancellation_state
  release-confirmed now workspace = elim (Bool-cases (is_own n owner r)) [
    | inl e ↦ (
      (λ h. own-Holds.0 e, λ v. ap (λ p. p.0) (accepted e)),
      released_row e ∙ rw e refl,
      rw e (ground (arith, e, workspace)),
    )
    | inr e ↦
        ((λ h. cc (refused e, h), λ v. cc (own-Holds.1 v, e)), kept_row e ∙ rw e refl, rw e refl)
  ]
