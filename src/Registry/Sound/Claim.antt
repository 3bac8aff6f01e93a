-- ===== src/Registry/Sound/Claim.antt =====
-- `claim_run`, `claim_dispatch` and the columns that are bound before a dispatch.
use workflow_runtime_core.Base.{
  ℕ, String, ◌≡◌, refl, inl, inr, true, Option, none, some, arith, Bool-cases,
}
use workflow_runtime_core.Exec.{bind-keeps}
use workflow_runtime_core.Models.{RunRecord, is_queued}
use workflow_runtime_core.Db.{require_version-keeps, Db, Conn, row, always, at_least, update_run}
use workflow_runtime_core.Registry.Claim.{
  start, claim_row, claim_run, take_lease, is_claimable, claim_dispatched, claim_dispatch,
  set_dispatch, set_input_set, mark_dispatch_failed,
}
use workflow_runtime_core.Registry.Invariant.{
  IsSound, update_run-IsSound, detail-IsSound, emit-IsSound,
}

start-IsSound :
    (conn : Conn) (k : String) (db : Db) (r : RunRecord)
    → row k db ≡ some r
    → is_queued r.status ≡ true
    → IsSound db
    → IsSound (update_run k always (start conn) db).1
start-IsSound conn k db r found queued h =
    update_run-IsSound k always (start conn) db (λ s. refl) h (λ s e t. ground arith)
      (λ s e t l. ground arith)

claim_row-IsSound :
    (conn : Conn) (k : String) (db : Db) (o : Option RunRecord)
    → row k db ≡ o
    → IsSound db
    → IsSound (claim_row conn k o db).1
unfolding claim_row
claim_row-IsSound conn k db none found h = h
claim_row-IsSound conn k db (some r) found h = elim (Bool-cases (is_queued r.status)) [
  | inl e ↦
      let s = start-IsSound conn k db r found e h in
      let t = emit-IsSound conn k "claimed" none (update_run k always (start conn) db).1 s in
      rw e (bind-keeps IsSound _ _ _ s (λ a done. bind-keeps IsSound _ _ _ t (λ b done'. t)))
  | inr e ↦ rw e h
]

pub claim_run-IsSound :
    (conn : Conn) (k : String) (db : Db) → IsSound db → IsSound (claim_run conn k db).1
unfolding claim_run
claim_run-IsSound conn k db h = claim_row-IsSound conn k db (row k db) refl h

take_lease-IsSound :
    (conn : Conn) (k owner : String) (seconds : ℕ) (dispatch : String) (db : Db) (r : RunRecord)
    → row k db ≡ some r
    → is_claimable conn dispatch r ≡ true
    → at_least 2 db.version ≡ true
    → IsSound db
    → IsSound (update_run k always (take_lease conn owner seconds) db).1
take_lease-IsSound conn k owner seconds dispatch db r found claimable live h =
    update_run-IsSound k always (take_lease conn owner seconds) db (λ s. refl) h
      (λ s e t. ground arith) (λ s e t l. ground arith)

claim_dispatched-IsSound :
    (conn : Conn) (k dispatch owner : String) (seconds : ℕ) (db : Db) (o : Option RunRecord)
    → row k db ≡ o
    → IsSound db
    → IsSound (claim_dispatched conn k dispatch owner seconds o db).1
unfolding claim_dispatched
claim_dispatched-IsSound conn k dispatch owner seconds db none found h = h
claim_dispatched-IsSound conn k dispatch owner seconds db (some r) found h =
    elim (Bool-cases (at_least 2 db.version)) [
      | inl v ↦ rw v (elim (Bool-cases (is_claimable conn dispatch r)) [
        | inl e ↦
            let s = take_lease-IsSound conn k owner seconds dispatch db r found e v h in
            rw e (
              bind-keeps IsSound _ _ _ s (λ a done.
                let t = emit-IsSound conn k "claimed" _ _ s in
                bind-keeps IsSound _ _ _ t (λ b done'. t)))
        | inr e ↦ rw e h
      ])
      | inr v ↦ rw v h
    ]

pub claim_dispatch-IsSound :
    (conn : Conn) (k dispatch owner : String) (seconds : ℕ) (db : Db)
    → IsSound db
    → IsSound (claim_dispatch conn k dispatch owner seconds db).1
unfolding claim_dispatch
claim_dispatch-IsSound conn k dispatch owner seconds db h =
    claim_dispatched-IsSound conn k dispatch owner seconds db (row k db) refl h

pub set_dispatch-IsSound :
    (conn : Conn) (k dispatch : String) (db : Db)
    → IsSound db
    → IsSound (set_dispatch conn k dispatch db).1
unfolding set_dispatch
set_dispatch-IsSound conn k dispatch db h = require_version-keeps IsSound _ _ _ h λ v.
    let s = detail-IsSound k _ db (λ r. ground arith) h always in
    bind-keeps IsSound _ _ _ s (λ a done. s)

pub set_input_set-IsSound :
    (conn : Conn) (k input_set : String) (db : Db)
    → IsSound db
    → IsSound (set_input_set conn k input_set db).1
unfolding set_input_set
set_input_set-IsSound conn k input_set db h = require_version-keeps IsSound _ _ _ h λ v.
    let s = detail-IsSound k _ db (λ r. ground arith) h always in
    bind-keeps IsSound _ _ _ s (λ a done. s)

pub mark_dispatch_failed-IsSound :
    (conn : Conn) (k reason : String) (db : Db)
    → IsSound db
    → IsSound (mark_dispatch_failed conn k reason db).1
unfolding mark_dispatch_failed
mark_dispatch_failed-IsSound conn k reason db h = require_version-keeps IsSound _ _ _ h λ v.
    let s = detail-IsSound k _ db (λ r. ground arith) h always in
    bind-keeps IsSound _ _ _ s (λ a done. emit-IsSound conn k "dispatch_failed" _ _ s)
