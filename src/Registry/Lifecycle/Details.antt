-- ===== src/Registry/Lifecycle/Details.antt =====
-- The operations that leave the status of every run alone.
use workflow_runtime_core.Base.{
  ℕ, String, ◌≡◌, refl, inl, inr, Bool, ◌&&◌, Option, none, some, List, [], ◌∷◌, Bool-cases,
  is_text, is_some,
}
use workflow_runtime_core.Exec.{bind-keeps}
use workflow_runtime_core.Json.{Fields}
use workflow_runtime_core.Models.{RunRecord, is_cancelled, is_running}
use workflow_runtime_core.Db.{
  Db, Conn, row, always, update_run, require_version-keeps, raise_if-keeps,
}
use workflow_runtime_core.Registry.Claim.{set_dispatch, set_input_set, mark_dispatch_failed}
use workflow_runtime_core.Registry.Lease.{
  extend_lease, renew_lease, drop_lease, release_event, release_lease,
  release_cancelled_attempt_lease, record_progress,
}
use workflow_runtime_core.Registry.Metadata.{
  pinned_of, pin, equals_pin, compare_pin, after_pin, pin_execution_metadata,
  record_credential_sources, record_spend_ceiling, record_degradations,
}
use workflow_runtime_core.Registry.Events.{record_event}
use workflow_runtime_core.Registry.Retention.{mark_retention_started}
use workflow_runtime_core.Registry.Lifecycle.{stays, Moved}
use workflow_runtime_core.Registry.Lifecycle.Rows.{emit-Moved, same-Moved}
use workflow_runtime_core.Registry.Lifecycle.Claims.{emit_if-Moved}

module _ (j : String) (conn : Conn) (k : String) where
  -- An UPDATE of other columns.
  detail-Moved :
      (p : RunRecord → Bool) (f : RunRecord → RunRecord) (db : Db)
      → ((r : RunRecord) → (f r).run_id ≡ r.run_id)
      → ((r : RunRecord) → (f r).status ≡ r.status)
      → Moved j db (update_run k p f db).1
  detail-Moved p f db id same = same-Moved j db k p f db id same (stays _)

  pub set_dispatch-Moved :
      (dispatch : String) (db : Db) → Moved j db (set_dispatch conn k dispatch db).1
  unfolding set_dispatch
  set_dispatch-Moved dispatch db = require_version-keeps (Moved j db) _ _ _ (stays _) λ v.
      let s = detail-Moved always _ db (λ r. refl) (λ r. refl) in
      bind-keeps (Moved j db) _ _ _ s (λ a done. s)

  pub set_input_set-Moved :
      (inputs : String) (db : Db) → Moved j db (set_input_set conn k inputs db).1
  unfolding set_input_set
  set_input_set-Moved inputs db = require_version-keeps (Moved j db) _ _ _ (stays _) λ v.
      let s = detail-Moved always _ db (λ r. refl) (λ r. refl) in
      bind-keeps (Moved j db) _ _ _ s (λ a done. s)

  pub mark_dispatch_failed-Moved :
      (reason : String) (db : Db) → Moved j db (mark_dispatch_failed conn k reason db).1
  unfolding mark_dispatch_failed
  mark_dispatch_failed-Moved reason db = require_version-keeps (Moved j db) _ _ _ (stays _) λ v.
      let s = detail-Moved always _ db (λ r. refl) (λ r. refl) in
      bind-keeps (Moved j db) _ _ _ s (λ a done. emit-Moved j db conn k "dispatch_failed" _ _ s)

  pub renew_lease-Moved :
      (owner : String) (seconds : ℕ) (db : Db) → Moved j db (renew_lease conn k owner seconds db).1
  unfolding renew_lease
  renew_lease-Moved owner seconds db = require_version-keeps (Moved j db) _ _ _ (stays _) λ v.
      let s =
        detail-Moved (λ r. is_text r.lease_owner owner && is_running r.status)
          (extend_lease conn seconds) db (λ r. refl) (λ r. refl) in
      bind-keeps (Moved j db) _ _ _ s (λ a done. s)

  release_event-Moved :
      (o : Option RunRecord) (before db : Db)
      → Moved j before db
      → Moved j before (release_event conn k o db).1
  release_event-Moved none before db h = h
  release_event-Moved (some r) before db h = elim (Bool-cases (is_cancelled r.status)) [
    | inl e ↦ rw e (emit-Moved j before conn k "lease_released" none db h)
    | inr e ↦ rw e h
  ]

  pub release_lease-Moved : (db : Db) → Moved j db (release_lease conn k db).1
  unfolding release_lease
  release_lease-Moved db = require_version-keeps (Moved j db) _ _ _ (stays _) λ v.
      let s = detail-Moved always (drop_lease conn) db (λ r. refl) (λ r. refl) in
      bind-keeps (Moved j db) _ _ _ s (λ o done. release_event-Moved o db _ s)

  pub release_cancelled_attempt_lease-Moved :
      (n : ℕ) (owner : String) (db : Db)
      → Moved j db (release_cancelled_attempt_lease conn k n owner db).1
  unfolding release_cancelled_attempt_lease
  release_cancelled_attempt_lease-Moved n owner db =
      require_version-keeps (Moved j db) _ _ _ (stays _) λ v.
        let s = detail-Moved _ (drop_lease conn) db (λ r. refl) (λ r. refl) in
        bind-keeps (Moved j db) _ _ _ s
          (λ o done. emit_if-Moved j conn k "lease_released" (is_some o) db _ s)

  pub record_progress-Moved :
      (progress : Fields) (db : Db) → Moved j db (record_progress conn k progress db).1
  unfolding record_progress
  record_progress-Moved progress db = require_version-keeps (Moved j db) _ _ _ (stays _) λ v.
      let s = detail-Moved always _ db (λ r. refl) (λ r. refl) in
      bind-keeps (Moved j db) _ _ _ s (λ a done. s)

  compare_pin-Moved :
      (metadata : Fields) (o : Option RunRecord) (before db : Db)
      → Moved j before db
      → Moved j before (compare_pin metadata o db).1
  unfolding compare_pin
  compare_pin-Moved metadata none before db h = h
  compare_pin-Moved metadata (some r) before db h =
      elim (Bool-cases (equals_pin (pinned_of r) metadata)) [ inl e ↦ rw e h | inr e ↦ rw e h ]

  after_pin-Moved :
      (metadata : Fields) (o : Option RunRecord) (before db : Db)
      → Moved j before db
      → Moved j before (after_pin k metadata o db).1
  unfolding after_pin
  after_pin-Moved metadata (some r) before db h = h
  after_pin-Moved metadata none before db h = compare_pin-Moved metadata (row k db) before db h

  pub pin_execution_metadata-Moved :
      (metadata : Fields) (db : Db) → Moved j db (pin_execution_metadata conn k metadata db).1
  unfolding pin_execution_metadata
  pin_execution_metadata-Moved metadata db = require_version-keeps (Moved j db) _ _ _ (stays _) λ v.
      let s = detail-Moved _ (pin conn metadata) db (λ r. refl) (λ r. refl) in
      bind-keeps (Moved j db) _ _ _ s (λ o done. after_pin-Moved metadata o db _ s)

  pub record_credential_sources-Moved :
      (sources : Fields) (n : ℕ) (db : Db)
      → Moved j db (record_credential_sources conn k sources n db).1
  unfolding record_credential_sources
  record_credential_sources-Moved sources n db = raise_if-keeps (Moved j db) _ _ _ _ (stays _) λ b.
      require_version-keeps (Moved j db) _ _ _ (stays _) λ v.
        let s = detail-Moved always _ db (λ r. refl) (λ r. refl) in
        bind-keeps (Moved j db) _ _ _ s (λ a done. s)

  pub record_spend_ceiling-Moved :
      (minutes : ℕ) (db : Db) → Moved j db (record_spend_ceiling conn k minutes db).1
  unfolding record_spend_ceiling
  record_spend_ceiling-Moved minutes db = raise_if-keeps (Moved j db) _ _ _ _ (stays _) λ b.
      require_version-keeps (Moved j db) _ _ _ (stays _) λ v.
        let s = detail-Moved always _ db (λ r. refl) (λ r. refl) in
        bind-keeps (Moved j db) _ _ _ s (λ a done. s)

  pub record_degradations-Moved :
      (entries : List Fields) (n : ℕ) (db : Db)
      → Moved j db (record_degradations conn k entries n db).1
  unfolding record_degradations
  record_degradations-Moved [] n db = stays _
  record_degradations-Moved (entry ∷ entries) n db =
      raise_if-keeps (Moved j db) _ _ _ _ (stays _) λ b.
        require_version-keeps (Moved j db) _ _ _ (stays _) λ v.
          let s = detail-Moved always _ db (λ r. refl) (λ r. refl) in
          bind-keeps (Moved j db) _ _ _ s (λ a done. s)

  pub record_event-Moved :
      (kind : String) (detail : Option Fields) (db : Db)
      → Moved j db (record_event conn k kind detail db).1
  unfolding record_event
  record_event-Moved kind detail db = raise_if-keeps (Moved j db) _ _ _ _ (stays _) λ a.
      raise_if-keeps (Moved j db) _ _ _ _ (stays _) λ b. emit-Moved j db conn k kind _ db (stays _)

  pub mark_retention_started-Moved : (db : Db) → Moved j db (mark_retention_started conn k db).1
  unfolding mark_retention_started
  mark_retention_started-Moved db = emit-Moved j db conn k "retention_started" none db (stays _)
