-- ===== src/Registry/Metadata/Pinned.antt =====
-- The pinned execution metadata is written once: `pin_execution_metadata` and the functions that
-- write beside it.
use workflow_runtime_core.Base.{
  ℕ, String, ◌≡◌, refl, ◌∙◌, inl, inr, true, false, none, some, Bool-cases, str_eq, is_none,
  if◌then◌else◌,
}
use workflow_runtime_core.Exec.{ok, err, execution_metadata_conflict, ◌>>=◌}
use workflow_runtime_core.Json.{Json, Fields, same, get-put}
use workflow_runtime_core.Models.{RunRecord}
use workflow_runtime_core.Db.{Db, Conn, row, at_least, update_run, row-updated}
use workflow_runtime_core.Registry.Metadata.{
  stored, pinned_of, pin, equals_pin, compare_pin, after_pin, pin_execution_metadata, note_attempt,
  set_ceiling,
}

module _ (conn : Conn) (r : RunRecord) where
  pub set_ceiling-pinned_of : (minutes : ℕ) → pinned_of (set_ceiling conn minutes r) ≡ pinned_of r
  unfolding pinned_of
  set_ceiling-pinned_of minutes = get-put "spend_ceiling" "pinned" _ (stored r)

  pub note_attempt-pinned_of :
      (k : String) (n : ℕ) (v : Json)
      → str_eq k "pinned" ≡ false
      → pinned_of (note_attempt conn k n v r) ≡ pinned_of r
  unfolding pinned_of
  note_attempt-pinned_of k n v e = get-put k "pinned" _ (stored r) ∙ rw e

module _ (conn : Conn) (k : String) (db : Db) (r : RunRecord) (found : row k db ≡ some r)
    (live : at_least 4 db.version ≡ true) where
  -- A run that has no execution metadata yet gets the pin, and the caller gets it back.
  pub pin_first :
      (metadata : Fields)
      → r.execution_metadata_json ≡ none
      → (pin_execution_metadata conn k metadata db).0 ≡ ok metadata
  unfolding pin_execution_metadata ◌>>=◌ update_run after_pin
  pin_first metadata empty = rw live (rw found (rw empty))

  unchanged :
      (metadata : Fields) (written : Fields)
      → r.execution_metadata_json ≡ some written
      → row k (update_run k (λ s. is_none s.execution_metadata_json) (pin conn metadata) db).1
        ≡ some r
  unchanged metadata written e =
      row-updated conn k (λ s. is_none s.execution_metadata_json) (pin conn metadata) (λ s. refl) db
        r found
      ∙ rw e

  compared :
      (metadata : Fields) (db' : Db)
      → row k db' ≡ some r
      → after_pin k metadata none db' ≡ (
        if equals_pin (pinned_of r) metadata then ok metadata else err execution_metadata_conflict,
        db',
      )
  unfolding after_pin compare_pin
  compared metadata db' same =
      rw same
        (elim (Bool-cases (equals_pin (pinned_of r) metadata)) [ inl t ↦ rw t | inr t ↦ rw t ])

  refused :
      (metadata : Fields) (written : Fields)
      → r.execution_metadata_json ≡ some written
      → pin_execution_metadata conn k metadata db ≡ (
          after_pin k metadata none
            (update_run k (λ s. is_none s.execution_metadata_json) (pin conn metadata) db).1)
  unfolding pin_execution_metadata ◌>>=◌ update_run
  refused metadata written e = rw live (rw found (rw e))

  -- A pin that is there stays: a later `pin_execution_metadata` returns the same metadata when it
  -- is equal to the pin and raises a conflict otherwise, and the row is as it was.
  pub pin_once :
      (metadata : Fields) (written : Fields)
      → r.execution_metadata_json ≡ some written
      → ((pin_execution_metadata conn k metadata db).0 ≡ (
          if equals_pin (pinned_of r) metadata
          then ok metadata
          else err execution_metadata_conflict))
        × (row k (pin_execution_metadata conn k metadata db).1 ≡ some r)
  pin_once metadata written e =
      let same = refused metadata written e ∙ compared metadata _ (unchanged metadata written e) in
      rw same (refl, unchanged metadata written e)
