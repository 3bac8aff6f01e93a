-- ===== src/Registry/Metadata/Kept.antt =====
-- What is recorded beside the pinned execution metadata leaves the pin alone.
use workflow_runtime_core.Base.{
  ℕ, String, ◌≡◌, refl, ap, ◌∙◌, inl, inr, Option, none, some, List, [], ◌∷◌, Bool-cases, str_eq,
}
use workflow_runtime_core.Exec.{bind-keeps}
use workflow_runtime_core.Json.{Json, Fields}
use workflow_runtime_core.Models.{RunRecord}
use workflow_runtime_core.Db.{
  Db, Conn, row, always, update_run, row-update_run, rewritten, require_version-keeps,
  raise_if-keeps,
}
use workflow_runtime_core.Registry.Metadata.{
  pinned_of, note_attempt, set_ceiling, record_spend_ceiling, record_credential_sources,
  record_degradations,
}
use workflow_runtime_core.Registry.Metadata.Pinned.{set_ceiling-pinned_of, note_attempt-pinned_of}

-- The pin of a row.
abbrev pub pin_at : Option RunRecord → Option Json
pin_at none = none
pin_at (some r) = pinned_of r

rewritten-pin_at :
    (f : RunRecord → RunRecord) (o : Option RunRecord)
    → ((r : RunRecord) → pinned_of (f r) ≡ pinned_of r)
    → pin_at (rewritten always f o) ≡ pin_at o
rewritten-pin_at f none same = refl
rewritten-pin_at f (some r) same = same r

module _ (conn : Conn) (k j : String) (db : Db) where
  update_run-pin_at :
      (f : RunRecord → RunRecord)
      → ((r : RunRecord) → (f r).run_id ≡ r.run_id)
      → ((r : RunRecord) → pinned_of (f r) ≡ pinned_of r)
      → pin_at (row j (update_run k always f db).1) ≡ pin_at (row j db)
  update_run-pin_at f keeps same =
      ap pin_at (row-update_run k j always f db keeps) ∙ (elim (Bool-cases (str_eq k j)) [
        | inl e ↦ rw e (rewritten-pin_at f (row j db) same)
        | inr e ↦ rw e
      ])

  Kept : Db → Type 0
  Kept db' = pin_at (row j db') ≡ pin_at (row j db)

  -- The ceiling, the credential sources and the degradations of a run are recorded without
  -- touching a pin: whatever these functions are given and whether they return or raise, every
  -- run has the pin it had.
  pub recorded-pin :
      (minutes n : ℕ) (sources : Fields) (entries : List Fields)
      → (pin_at (row j (record_spend_ceiling conn k minutes db).1) ≡ pin_at (row j db))
        × (pin_at (row j (record_credential_sources conn k sources n db).1) ≡ pin_at (row j db))
        × (pin_at (row j (record_degradations conn k entries n db).1) ≡ pin_at (row j db))
  unfolding record_spend_ceiling record_credential_sources record_degradations Kept
  recorded-pin minutes n sources entries = (
    raise_if-keeps Kept _ _ _ db refl (λ a. require_version-keeps Kept 4 _ db refl (λ v.
        let t =
          update_run-pin_at (set_ceiling conn minutes) (λ r. refl)
            (λ r. set_ceiling-pinned_of conn r minutes) in
        bind-keeps Kept _ _ db t (λ b e. t))),
    raise_if-keeps Kept _ _ _ db refl (λ a. require_version-keeps Kept 4 _ db refl (λ v.
        let t =
          update_run-pin_at (note_attempt conn "credential_sources" n _) (λ r. refl)
            (λ r. note_attempt-pinned_of conn r "credential_sources" n _ refl) in
        bind-keeps Kept _ _ db t (λ b e. t))),
    degraded entries,
  )
    where
      degraded : (entries : List Fields) → Kept (record_degradations conn k entries n db).1
      degraded [] = refl
      degraded (entry ∷ entries) = raise_if-keeps Kept _ _ _ db refl (λ a.
          require_version-keeps Kept 4 _ db refl (λ v.
            let t =
              update_run-pin_at (note_attempt conn "degradations" n _) (λ r. refl)
                (λ r. note_attempt-pinned_of conn r "degradations" n _ refl) in
            bind-keeps Kept _ _ db t (λ b e. t)))
