-- ===== src/Registry/Outcome/Resume.antt =====
-- A paused run is resumed and claimed: `request_resume` and then `claim_run`.
use workflow_runtime_core.Base.{
  String, ◌≡◌, refl, sym, ap, ◌∙◌, inl, inr, true, Option, none, some, Bool-cases,
}
use mathlib.Core.Path.{subst}
use workflow_runtime_core.Exec.{ok}
use workflow_runtime_core.Json
use workflow_runtime_core.Json.{Json, Fields, get-put}
use workflow_runtime_core.Models.{RunRecord, is_paused, is_running}
use workflow_runtime_core.Db.{Db, Conn, row, always, update_emit_lem, changed, row-changed}
use workflow_runtime_core.Registry.Record.{from_row}
use workflow_runtime_core.Registry.Claim.{start, claim_run}
use workflow_runtime_core.Registry.Claim.Exclusive.{claim_queued}
use workflow_runtime_core.Registry.Outcome.{
  resumed, resume_row, resume_key, request_resume, read_updated,
}

module _ (conn : Conn) (k : String) (payload : Json) where
  accepted :
      (db : Db) (r : RunRecord)
      → row k db ≡ some r
      → is_paused r.status ≡ true
      → (resume_row conn k payload (some r) db).1
        ≡ changed conn k (resumed conn payload) "resume_requested" none db
  unfolding resume_row
  accepted db r found e = rw e (
      ap (λ p. p.1)
        (update_emit_lem conn k always (resumed conn payload) (λ s. refl) db r found
          "resume_requested" none read_updated))

  Resumed : RunRecord → Db → Type 0
  Resumed r db' = (is_paused r.status ≡ true) × (row k db' ≡ some (resumed conn payload r))

  changed-Resumed :
      (db : Db) (r : RunRecord)
      → row k db ≡ some r
      → is_paused r.status ≡ true
      → Resumed r (changed conn k (resumed conn payload) "resume_requested" none db)
  unfolding Resumed
  changed-Resumed db r found e =
      (e, row-changed conn k (resumed conn payload) "resume_requested" none db r (λ s. refl) found)

  resumed_lem :
      (db db' : Db) (c : RunRecord) (o : Option RunRecord)
      → row k db ≡ o
      → resume_row conn k payload o db ≡ (ok c, db')
      → (r : RunRecord) × Resumed r db'
  unfolding resume_row
  resumed_lem db db' c none found h = cc h
  resumed_lem db db' c (some r) found h = elim (Bool-cases (is_paused r.status)) [
    | inl e ↦ (
      r,
      subst (Resumed r) (sym (accepted db r found e) ∙ ap (λ p. p.1) h)
          (changed-Resumed db r found e),
    )
    | inr e ↦ cc (rw e at h)
  ]

  -- In the database that a `request_resume` leaves when it returns, a `claim_run` gets the
  -- run: running, with the payload under the resume key of its configuration and no interrupt
  -- left.
  pub resume-claim_run :
      (conn' : Conn) (db db' : Db) (c : RunRecord)
      → request_resume conn k payload db ≡ (ok c, db')
      → (claimed : RunRecord) × ((claim_run conn' k db').0 ≡ ok (some claimed))
        × (is_running claimed.status ≡ true)
        × (Json.get resume_key claimed.config_json ≡ some payload)
        × (claimed.interrupt_payload ≡ none)
  unfolding request_resume claim_run Resumed
  resume-claim_run conn' db db' c h =
      let (r, (paused, found)) = resumed_lem db db' c (row k db) refl h in
      (
        from_row db' (start conn' (resumed conn payload r)),
        rw found (ap (λ p. p.0) (claim_queued conn' k db' (resumed conn payload r) found refl)),
        refl,
        get-put resume_key resume_key payload r.config_json,
        refl,
      )
