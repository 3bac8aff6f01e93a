-- ===== src/Registry/Sound/Metadata.antt =====
-- The execution metadata.
use workflow_runtime_core.Base.{
  ℕ, String, inl, inr, Option, none, some, List, [], ◌∷◌, arith, Bool-cases,
}
use workflow_runtime_core.Exec.{bind-keeps}
use workflow_runtime_core.Json.{Fields}
use workflow_runtime_core.Models.{RunRecord}
use workflow_runtime_core.Db.{require_version-keeps, raise_if-keeps, Db, Conn, row, always}
use workflow_runtime_core.Registry.Metadata.{
  equals_pin, pinned_of, compare_pin, after_pin, pin_execution_metadata, record_credential_sources,
  record_spend_ceiling, record_degradations,
}
use workflow_runtime_core.Registry.Invariant.{IsSound, detail-IsSound}

compare_pin-IsSound :
    (metadata : Fields) (o : Option RunRecord) (db : Db)
    → IsSound db
    → IsSound (compare_pin metadata o db).1
unfolding compare_pin
compare_pin-IsSound metadata none db h = h
compare_pin-IsSound metadata (some r) db h = elim (Bool-cases (equals_pin (pinned_of r) metadata)) [
  | inl e ↦ rw e h
  | inr e ↦ rw e h
]

after_pin-IsSound :
    (k : String) (metadata : Fields) (o : Option RunRecord) (db : Db)
    → IsSound db
    → IsSound (after_pin k metadata o db).1
unfolding after_pin
after_pin-IsSound k metadata (some r) db h = h
after_pin-IsSound k metadata none db h = compare_pin-IsSound metadata (row k db) db h

pub pin_execution_metadata-IsSound :
    (conn : Conn) (k : String) (metadata : Fields) (db : Db)
    → IsSound db
    → IsSound (pin_execution_metadata conn k metadata db).1
unfolding pin_execution_metadata
pin_execution_metadata-IsSound conn k metadata db h = require_version-keeps IsSound _ _ _ h λ v.
    let s = detail-IsSound k _ db (λ r. ground arith) h _ in
    bind-keeps IsSound _ _ _ s (λ o done. after_pin-IsSound k metadata o _ s)

pub record_credential_sources-IsSound :
    (conn : Conn) (k : String) (sources : Fields) (attempt_no : ℕ) (db : Db)
    → IsSound db
    → IsSound (record_credential_sources conn k sources attempt_no db).1
unfolding record_credential_sources
record_credential_sources-IsSound conn k sources attempt_no db h =
    raise_if-keeps IsSound _ _ _ _ h λ b. require_version-keeps IsSound _ _ _ h λ v.
      let s = detail-IsSound k _ db (λ r. ground arith) h always in
      bind-keeps IsSound _ _ _ s (λ a done. s)

pub record_spend_ceiling-IsSound :
    (conn : Conn) (k : String) (minutes : ℕ) (db : Db)
    → IsSound db
    → IsSound (record_spend_ceiling conn k minutes db).1
unfolding record_spend_ceiling
record_spend_ceiling-IsSound conn k minutes db h = raise_if-keeps IsSound _ _ _ _ h λ b.
    require_version-keeps IsSound _ _ _ h λ v.
      let s = detail-IsSound k _ db (λ r. ground arith) h always in
      bind-keeps IsSound _ _ _ s (λ a done. s)

pub record_degradations-IsSound :
    (conn : Conn) (k : String) (entries : List Fields) (attempt_no : ℕ) (db : Db)
    → IsSound db
    → IsSound (record_degradations conn k entries attempt_no db).1
unfolding record_degradations
record_degradations-IsSound conn k [] attempt_no db h = h
record_degradations-IsSound conn k (entry ∷ entries) attempt_no db h =
    raise_if-keeps IsSound _ _ _ _ h λ b. require_version-keeps IsSound _ _ _ h λ v.
      let s = detail-IsSound k _ db (λ r. ground arith) h always in
      bind-keeps IsSound _ _ _ s (λ a done. s)
