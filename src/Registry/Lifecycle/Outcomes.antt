-- ===== src/Registry/Lifecycle/Outcomes.antt =====
-- The pause, the terminal operations, the resume and the cancellation make one move.
use workflow_runtime_core.Base.{
  String, ◌≡◌, refl, inl, inr, Bool, true, Option, none, some, arith, Bool-cases,
}
use workflow_runtime_core.Exec.{Exec, bind-keeps, ◌>>=◌}
use workflow_runtime_core.Json.{Json, Fields}
use workflow_runtime_core.Models.{RunRecord, RunStatus, queued, is_paused, is_terminal}
use workflow_runtime_core.Db.{
  Db, Conn, row, always, at_least, require_version-keeps, raise_if-keeps,
}
use workflow_runtime_core.Registry.Outcome.{
  revival_clash, check_revival, mark_paused, completed_row, mark_completed, mark_failed,
  mark_failed_structured, read_updated, resumed, resume_row, request_resume, cancel, cancel_row,
  cancel_run,
}
use workflow_runtime_core.Registry.Lifecycle.{
  Moves, stays, resumed as moved_back, stopped, paused_in, completed_in, failed_in, Moved,
}
use workflow_runtime_core.Registry.Lifecycle.Rows.{emit-Moved, step-Moved}

paused-Moves : (s : RunStatus) → is_paused s ≡ true → Moves (some s) (some queued)
paused-Moves queued e = cc e
paused-Moves RunStatus.running e = cc e
paused-Moves RunStatus.paused e = moved_back
paused-Moves RunStatus.completed e = cc e
paused-Moves RunStatus.failed e = cc e
paused-Moves RunStatus.cancelled e = cc e

module _ (j : String) (conn : Conn) (k : String) where
  pub mark_completed-Moved :
      (artifacts : Option Fields) (published : Bool) (db : Db)
      → Moved j db (mark_completed conn k artifacts published db).1
  unfolding mark_completed
  mark_completed-Moved artifacts published db = raise_if-keeps (Moved j db) _ _ _ _ (stays _) λ v.
      let s =
        step-Moved j db k always (completed_row conn artifacts published (at_least 2 db.version))
          (λ x. ground arith) (λ x same t. settles x) in
      bind-keeps (Moved j db) _ _ _ s (λ a done. emit-Moved j db conn k "completed" none _ s)
    where
      settles :
          (x : RunRecord)
          → Moves
              (some x.status)
              (some ((completed_row conn artifacts published (at_least 2 db.version) x).status))
      settles x = elim (Bool-cases (at_least 2 db.version)) [
        | inl e ↦ rw e (completed_in x.status)
        | inr e ↦ rw e (completed_in x.status)
      ]

  pub mark_failed-Moved :
      (message : String) (db : Db) → Moved j db (mark_failed conn k message db).1
  unfolding mark_failed
  mark_failed-Moved message db =
      let s =
        step-Moved j db k always _ (λ x. ground arith)
          (λ x same t. elim (Bool-cases (at_least 2 db.version)) [
            | inl e ↦ rw e (failed_in x.status)
            | inr e ↦ rw e (failed_in x.status)
          ]) in
      bind-keeps (Moved j db) _ _ _ s (λ a done. emit-Moved j db conn k "failed" _ _ s)

  pub mark_failed_structured-Moved :
      (failure : Fields) (db : Db) → Moved j db (mark_failed_structured conn k failure db).1
  unfolding mark_failed_structured
  mark_failed_structured-Moved failure db = require_version-keeps (Moved j db) _ _ _ (stays _) λ v.
      let s = step-Moved j db k always _ (λ x. refl) (λ x same t. failed_in x.status) in
      bind-keeps (Moved j db) _ _ _ s (λ a done. emit-Moved j db conn k "failed" _ _ s)

  behind_revival :
      (f : Unit → Exec Db Unit) (db : Db)
      → Moved j db (f tt db).1
      → Moved j db ((check_revival k >>= f) db).1
  unfolding check_revival ◌>>=◌
  behind_revival f db h = elim (Bool-cases (revival_clash (row k db) db)) [
    | inl e ↦ rw e (stays _)
    | inr e ↦ rw e h
  ]

  pub mark_paused-Moved : (payload : Json) (db : Db) → Moved j db (mark_paused conn k payload db).1
  unfolding mark_paused
  mark_paused-Moved payload db = behind_revival _ db (
      let s =
        step-Moved j db k always _ (λ x. ground arith)
          (λ x same t. elim (Bool-cases (at_least 2 db.version)) [
            | inl e ↦ rw e (paused_in x.status)
            | inr e ↦ rw e (paused_in x.status)
          ]) in
      bind-keeps (Moved j db) _ _ _ s (λ a done. emit-Moved j db conn k "paused" none _ s))

  read_updated-Moved :
      (o : Option RunRecord) (before db : Db)
      → Moved j before db
      → Moved j before (read_updated o db).1
  read_updated-Moved none before db h = h
  read_updated-Moved (some r) before db h = h

  resume_row-Moved :
      (payload : Json) (db : Db) (o : Option RunRecord)
      → row k db ≡ o
      → Moved j db (resume_row conn k payload o db).1
  unfolding resume_row
  resume_row-Moved payload db none found = stays _
  resume_row-Moved payload db (some r) found = elim (Bool-cases (is_paused r.status)) [
    | inl e ↦
        let s =
          step-Moved j db k always (resumed conn payload) (λ x. refl)
            (λ x same t. paused-Moves x.status (cc (e, same, found))) in
        rw e (
          bind-keeps (Moved j db) _ _ _ s (λ a done.
            let t = emit-Moved j db conn k "resume_requested" none _ s in
            bind-keeps (Moved j db) _ _ _ t (λ b done'. read_updated-Moved a db _ t)))
    | inr e ↦ rw e (stays _)
  ]

  pub request_resume-Moved :
      (payload : Json) (db : Db) → Moved j db (request_resume conn k payload db).1
  unfolding request_resume
  request_resume-Moved payload db = resume_row-Moved payload db (row k db) refl

  cancel_row-Moved :
      (db : Db) (o : Option RunRecord) → row k db ≡ o → Moved j db (cancel_row conn k o db).1
  unfolding cancel_row
  cancel_row-Moved db none found = stays _
  cancel_row-Moved db (some r) found = elim (Bool-cases (is_terminal r.status)) [
    | inl e ↦ rw e (stays _)
    | inr e ↦
        let s =
          step-Moved j db k always (cancel conn) (λ x. refl)
            (λ x same t. stopped x.status (cc (e, same, found))) in
        rw e (
          bind-keeps (Moved j db) _ _ _ s (λ a done.
            let t = emit-Moved j db conn k "cancelled" none _ s in
            bind-keeps (Moved j db) _ _ _ t (λ b done'. read_updated-Moved a db _ t)))
  ]

  pub cancel_run-Moved : (db : Db) → Moved j db (cancel_run conn k db).1
  unfolding cancel_run
  cancel_run-Moved db = cancel_row-Moved db (row k db) refl
