-- ===== src/Registry/Sound/Lease.antt =====
-- Renewing, releasing and recovering a lease, and recording progress.
use workflow_runtime_core.Base.{
  ℕ, String, refl, inl, inr, Bool, true, false, ◌&&◌, Option, none, some, arith, Bool-cases,
  is_some, is_text,
}
use workflow_runtime_core.Exec.{bind-keeps}
use workflow_runtime_core.Json.{Fields}
use workflow_runtime_core.Models.{RunRecord, is_running, is_cancelled}
use workflow_runtime_core.Db.{require_version-keeps, Db, Conn, always, update_run}
use workflow_runtime_core.Registry.Lease.{
  extend_lease, renew_lease, drop_lease, release_event, release_lease, emit_if, is_lapsed, requeue,
  release_cancelled_attempt_lease, requeue_expired_lease, record_progress,
}
use workflow_runtime_core.Registry.Invariant.{
  IsSound, update_run-IsSound, detail-IsSound, emit-IsSound,
}

pub renew_lease-IsSound :
    (conn : Conn) (k owner : String) (seconds : ℕ) (db : Db)
    → IsSound db
    → IsSound (renew_lease conn k owner seconds db).1
unfolding renew_lease
renew_lease-IsSound conn k owner seconds db h = require_version-keeps IsSound _ _ _ h λ v.
    let s =
      update_run-IsSound k (λ r. is_text r.lease_owner owner && is_running r.status)
        (extend_lease conn seconds) db (λ r. refl) h (λ r e t. ground arith)
        (λ r e t l. ground arith) in
    bind-keeps IsSound _ _ _ s (λ a done. s)

drop_lease-IsSound :
    (conn : Conn) (k : String) (p : RunRecord → Bool) (db : Db)
    → IsSound db
    → IsSound (update_run k p (drop_lease conn) db).1
drop_lease-IsSound conn k p db h =
    update_run-IsSound k p (drop_lease conn) db (λ r. refl) h (λ r e t. ground arith)
      (λ r e t l. ground arith)

release_event-IsSound :
    (conn : Conn) (k : String) (o : Option RunRecord) (db : Db)
    → IsSound db
    → IsSound (release_event conn k o db).1
release_event-IsSound conn k none db h = h
release_event-IsSound conn k (some r) db h = elim (Bool-cases (is_cancelled r.status)) [
  | inl e ↦ rw e (emit-IsSound conn k "lease_released" none db h)
  | inr e ↦ rw e h
]

pub release_lease-IsSound :
    (conn : Conn) (k : String) (db : Db) → IsSound db → IsSound (release_lease conn k db).1
unfolding release_lease
release_lease-IsSound conn k db h = require_version-keeps IsSound _ _ _ h λ v.
    let s = drop_lease-IsSound conn k always db h in
    bind-keeps IsSound _ _ _ s (λ o done. release_event-IsSound conn k o _ s)

emit_if-IsSound :
    (conn : Conn) (k kind : String) (b : Bool) (db : Db)
    → IsSound db
    → IsSound (emit_if conn k kind b db).1
emit_if-IsSound conn k kind true db h =
    let s = emit-IsSound conn k kind none db h in bind-keeps IsSound _ _ _ s (λ a done. s)
emit_if-IsSound conn k kind false db h = h

pub release_cancelled_attempt_lease-IsSound :
    (conn : Conn) (k : String) (attempt_no : ℕ) (owner : String) (db : Db)
    → IsSound db
    → IsSound (release_cancelled_attempt_lease conn k attempt_no owner db).1
unfolding release_cancelled_attempt_lease
release_cancelled_attempt_lease-IsSound conn k attempt_no owner db h =
    require_version-keeps IsSound _ _ _ h λ v.
      let s = drop_lease-IsSound conn k _ db h in
      bind-keeps IsSound _ _ _ s (λ o done. emit_if-IsSound conn k "lease_released" (is_some o) _ s)

pub requeue_expired_lease-IsSound :
    (conn : Conn) (k : String) (db : Db) → IsSound db → IsSound (requeue_expired_lease conn k db).1
unfolding requeue_expired_lease
requeue_expired_lease-IsSound conn k db h = require_version-keeps IsSound _ _ _ h λ v.
    let s =
      update_run-IsSound k (λ r. is_running r.status && is_lapsed r.lease_expires_at conn.now)
        (requeue conn) db (λ r. refl) h (λ r e t. ground arith) (λ r e t l. ground arith) in
    bind-keeps IsSound _ _ _ s (λ o done. emit_if-IsSound conn k "lease_expired" (is_some o) _ s)

pub record_progress-IsSound :
    (conn : Conn) (k : String) (progress : Fields) (db : Db)
    → IsSound db
    → IsSound (record_progress conn k progress db).1
unfolding record_progress
record_progress-IsSound conn k progress db h = require_version-keeps IsSound _ _ _ h λ v.
    let s = detail-IsSound k _ db (λ r. ground arith) h always in
    bind-keeps IsSound _ _ _ s (λ a done. s)
