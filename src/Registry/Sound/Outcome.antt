-- ===== src/Registry/Sound/Outcome.antt =====
-- The terminal transitions, the pause, the resume and the cancellation.
use workflow_runtime_core.Base.{
  String, ◌≡◌, refl, inl, inr, Bool, false, Option, none, some, arith, Bool-cases,
}
use workflow_runtime_core.Exec.{Exec, bind-keeps, ◌>>=◌}
use workflow_runtime_core.Json.{Json, Fields}
use workflow_runtime_core.Models.{RunRecord, is_paused, is_terminal}
use workflow_runtime_core.Db.{
  require_version-keeps, raise_if-keeps, Db, Conn, row, always, at_least, update_run,
}
use workflow_runtime_core.Registry.Outcome.{
  revival_clash, check_revival, mark_paused, completed_row, mark_completed, mark_failed,
  mark_failed_structured, read_updated, resumed, resume_row, request_resume, cancel, cancel_row,
  cancel_run,
}
use workflow_runtime_core.Registry.Invariant.{
  IsLeased, IsSound, IsTame, update_run-IsSound, emit-IsSound,
}

pub mark_completed-IsSound :
    (conn : Conn) (k : String) (artifacts : Option Fields) (published : Bool) (db : Db)
    → IsSound db
    → IsSound (mark_completed conn k artifacts published db).1
unfolding mark_completed
mark_completed-IsSound conn k artifacts published db h = raise_if-keeps IsSound _ _ _ _ h λ v.
    let s =
      update_run-IsSound k always (completed_row conn artifacts published (at_least 2 db.version))
        db (λ r. ground arith) h (λ r e t. ground arith) (λ r e t l. ground arith) in
    bind-keeps IsSound _ _ _ s (λ a done. emit-IsSound conn k "completed" none _ s)

pub mark_failed-IsSound :
    (conn : Conn) (k message : String) (db : Db)
    → IsSound db
    → IsSound (mark_failed conn k message db).1
unfolding mark_failed
mark_failed-IsSound conn k message db h =
    let s =
      update_run-IsSound k always _ db (λ r. ground arith) h (λ r e t. ground arith)
        (λ r e t l. ground arith) in
    bind-keeps IsSound _ _ _ s (λ a done. emit-IsSound conn k "failed" _ _ s)

pub mark_failed_structured-IsSound :
    (conn : Conn) (k : String) (failure : Fields) (db : Db)
    → IsSound db
    → IsSound (mark_failed_structured conn k failure db).1
unfolding mark_failed_structured
mark_failed_structured-IsSound conn k failure db h = require_version-keeps IsSound _ _ _ h λ v.
    let s =
      update_run-IsSound k always _ db (λ r. refl) h (λ r e t. ground arith)
        (λ r e t l. ground arith) in
    bind-keeps IsSound _ _ _ s (λ a done. emit-IsSound conn k "failed" _ _ s)

read_updated-IsSound : (o : Option RunRecord) (db : Db) → IsSound db → IsSound (read_updated o db).1
read_updated-IsSound none db h = h
read_updated-IsSound (some r) db h = h

resume_row-IsSound :
    (conn : Conn) (k : String) (payload : Json) (db : Db) (o : Option RunRecord)
    → row k db ≡ o
    → IsSound db
    → IsSound (resume_row conn k payload o db).1
unfolding resume_row
resume_row-IsSound conn k payload db none found h = h
resume_row-IsSound conn k payload db (some r) found h = elim (Bool-cases (is_paused r.status)) [
  | inl e ↦
      let s =
        update_run-IsSound k always (resumed conn payload) db (λ s. refl) h (λ s e' t. ground arith)
          (λ s e' t l. ground arith) in
      rw e (
        bind-keeps IsSound _ _ _ s (λ a done.
          let t = emit-IsSound conn k "resume_requested" none _ s in
          bind-keeps IsSound _ _ _ t (λ b done'. read_updated-IsSound a _ t)))
  | inr e ↦ rw e h
]

pub request_resume-IsSound :
    (conn : Conn) (k : String) (payload : Json) (db : Db)
    → IsSound db
    → IsSound (request_resume conn k payload db).1
unfolding request_resume
request_resume-IsSound conn k payload db h = resume_row-IsSound conn k payload db (row k db) refl h

cancel_row-IsSound :
    (conn : Conn) (k : String) (db : Db) (o : Option RunRecord)
    → row k db ≡ o
    → IsSound db
    → IsSound (cancel_row conn k o db).1
unfolding cancel_row
cancel_row-IsSound conn k db none found h = h
cancel_row-IsSound conn k db (some r) found h = elim (Bool-cases (is_terminal r.status)) [
  | inl e ↦ rw e h
  | inr e ↦
      let s =
        update_run-IsSound k always (cancel conn) db (λ s. refl) h (λ s e' t. ground arith)
          (λ s e' t l. ground arith) in
      rw e (
        bind-keeps IsSound _ _ _ s (λ a done.
          let t = emit-IsSound conn k "cancelled" none _ s in
          bind-keeps IsSound _ _ _ t (λ b done'. read_updated-IsSound a _ t)))
]

pub cancel_run-IsSound :
    (conn : Conn) (k : String) (db : Db) → IsSound db → IsSound (cancel_run conn k db).1
unfolding cancel_run
cancel_run-IsSound conn k db h = cancel_row-IsSound conn k db (row k db) refl h

-- The rest of `mark_paused`, where no live row holds the workspace of a run that it revives.
paused-IsSound :
    (conn : Conn) (k : String) (f : RunRecord → RunRecord) (db : Db)
    → ((r : RunRecord) → (f r).run_id ≡ r.run_id)
    → ((r : RunRecord) → row k db ≡ some r → IsTame db.runs r (f r))
    → ((r : RunRecord)
        → IsLeased (at_least 2 db.version) r
        → IsLeased (at_least 2 db.version) (f r))
    → IsSound db
    → IsSound (update_run k always f db).1
paused-IsSound conn k f db id tame leased h =
    update_run-IsSound k always f db id h (λ r e t. tame r e) (λ r e t l. leased r l)

check_revival-keeps :
    (k : String) (f : Unit → Exec Db Unit) (db : Db)
    → IsSound db
    → (revival_clash (row k db) db ≡ false → IsSound (f tt db).1)
    → IsSound ((check_revival k >>= f) db).1
unfolding check_revival ◌>>=◌
check_revival-keeps k f db h rest = elim (Bool-cases (revival_clash (row k db) db)) [
  | inl e ↦ rw e h
  | inr e ↦ rw e (rest e)
]

pub mark_paused-IsSound :
    (conn : Conn) (k : String) (payload : Json) (db : Db)
    → IsSound db
    → IsSound (mark_paused conn k payload db).1
unfolding mark_paused
mark_paused-IsSound conn k payload db h = check_revival-keeps k _ db h λ v.
    let s =
      paused-IsSound conn k _ db (λ r. ground arith) (λ r e. ground (arith, v))
        (λ r l. ground arith) h in
    bind-keeps IsSound _ _ _ s (λ a done. emit-IsSound conn k "paused" none _ s)
