-- ===== src/Executor/Failure/Recorded.antt =====
-- What the record of a failure says, and where there is none.
use workflow_runtime_core.Base.{
  ℕ, ◌+◌, String, ◌≡◌, refl, sym, ap, ◌∙◌, Bool, true, false, not, ◌&&◌, Option, none, some, arith,
}
use mathlib.Core.Path.{subst}
use mathlib.Core.Option
use workflow_runtime_core.Exec.{ok, err, ◌>>=◌, in_failed_transaction}
use workflow_runtime_core.Json
use workflow_runtime_core.Json.{Json, bool, str, obj, Fields}
use workflow_runtime_core.Models.{RunRecord, RunStatus}
use workflow_runtime_core.Db.{
  Db, Conn, row, always, at_least, changed, row-changed, result-updated, emit-updated,
}
use workflow_runtime_core.Registry.Record.{truncate}
use workflow_runtime_core.Registry.Outcome.{mark_failed_structured, message_text}
use workflow_runtime_core.Registry.Metadata.{read_execution_metadata, as_dict, pinned_of}
use workflow_runtime_core.Executor.Failure.{
  Raised, declared_retryable, spends, is_repeat, error_type_of, with_reason, with_spends,
  failure_payload, record_with, record_structured, record_verdict, record_failure, exit_failed,
}

-- The row that `mark_failed_structured` leaves.
abbrev failed_row : Conn → Fields → RunRecord → RunRecord
failed_row conn failure r = record r {
  status = RunStatus.failed;
  error = some (truncate 8000 (message_text conn (Json.get "message" failure)));
  error_json = some failure;
  lease_owner = none;
  lease_expires_at = none;
  updated_at = conn.now;
}

retryable-reason :
    (b : Bool) (d : Fields) → Json.get "retryable" (with_reason b d) ≡ Json.get "retryable" d
retryable-reason true d = Json.get-put "reason" "retryable" (str "deterministic-repeat") d
retryable-reason false d = refl

retryable-spends :
    (payer : Option String) (d : Fields)
    → Json.get "retryable" (with_spends payer d) ≡ Json.get "retryable" d
retryable-spends none d = refl
retryable-spends (some payer) d = Json.get-put "spends" "retryable" (str payer) d

retryable-payload :
    (payer : Option String) (id : String) (exc : Raised) (repeated : Bool)
    → Json.get "retryable" (with_spends payer (failure_payload id exc repeated))
      ≡ some (bool (declared_retryable exc && not repeated))
unfolding failure_payload Json.get
retryable-payload payer id exc repeated =
    retryable-spends payer _ ∙ retryable-reason (declared_retryable exc && repeated) _

-- What a recorded failure leaves of its run.
abbrev pub IsRecorded : Bool → Option RunRecord → Type 0
IsRecorded retryable none = ⊥
IsRecorded retryable (some r) =
    (r.status ≡ RunStatus.failed)
    × (r.lease_owner ≡ none)
    × (r.lease_expires_at ≡ none)
    × (Option.map (Json.get "retryable") r.error_json ≡ some (some (bool retryable)))

module _ (conn : Conn) (k : String) (failure : Fields) (db : Db) (r : RunRecord)
    (found : row k db ≡ some r) (live : at_least 2 db.version ≡ true) where
  abbrev after_failure : Db
  after_failure = changed conn k (failed_row conn failure) "failed" (some (obj failure)) db

  structured_lem : mark_failed_structured conn k failure db ≡ (ok tt, after_failure)
  unfolding mark_failed_structured ◌>>=◌
  structured_lem = rw live (
      ground (
        arith,
        result-updated conn k always (failed_row conn failure) (λ s. refl) db r found,
        emit-updated conn k always (failed_row conn failure) (λ s. refl) db r found "failed"
            (some (obj failure)),
      ))

  recorded_row : row k after_failure ≡ some (failed_row conn failure r)
  recorded_row =
      row-changed conn k (failed_row conn failure) "failed" (some (obj failure)) db r (λ s. refl)
        found

four-two : (version : Option ℕ) → at_least 4 version ≡ true → at_least 2 version ≡ true
four-two none h = h
four-two (some v) h = ground arith

pin_read :
    (k : String) (db : Db) (r : RunRecord)
    → row k db ≡ some r
    → at_least 4 db.version ≡ true
    → (pinned : Option Fields) × ((read_execution_metadata k db).0 ≡ ok pinned)
unfolding read_execution_metadata ◌>>=◌
pin_read k db r found live = (as_dict (pinned_of r), rw (live, found))

-- The row after `record_structured`, whose payload has the verdict.
structured-IsRecorded :
    (conn : Conn) (run : RunRecord) (exc : Raised) (id : String) (db : Db) (r : RunRecord)
    → row run.run_id db ≡ some r
    → at_least 4 db.version ≡ true
    → (db' : Db) × (record_structured conn run exc id db ≡ (ok tt, db'))
      × IsRecorded
          (declared_retryable exc && not (is_repeat run (error_type_of exc) db))
          (row run.run_id db')
unfolding record_structured record_with
structured-IsRecorded conn run exc id db r found live =
    let (pinned, read) = pin_read run.run_id db r found live in
    let repeated = is_repeat run (error_type_of exc) db in
    let failure = with_spends (spends pinned) (failure_payload id exc repeated) in
    let two = four-two db.version live in
    (
      after_failure conn run.run_id failure db r found two,
      rw read (structured_lem conn run.run_id failure db r found two),
      subst (IsRecorded (declared_retryable exc && not repeated))
          (sym (recorded_row conn run.run_id failure db r found two))
          (refl, refl, refl, ap some (retryable-payload (spends pinned) id exc repeated)),
    )

-- On a schema at version 4 or later, the failure of a run that is there is recorded: the run is
-- failed and has no lease, the exit code is EXIT_FAILED, and the payload says that a retry is
-- worthwhile just when the exception does not deny it and the attempt does not repeat its
-- predecessor's failure.
pub record_failure-IsRecorded :
    (conn : Conn) (run : RunRecord) (exc : Raised) (db : Db) (r : RunRecord)
    → row run.run_id db ≡ some r
    → at_least 4 db.version ≡ true
    → (db' : Db) × (record_failure conn run exc db ≡ (ok exit_failed, db'))
      × IsRecorded
          (declared_retryable exc && not (is_repeat run (error_type_of exc) db))
          (row run.run_id db')
unfolding record_failure record_verdict ◌>>=◌ row
record_failure-IsRecorded conn run exc db r found live =
    let (s, written, kept) =
      structured-IsRecorded conn run exc (conn.uuid4 db.minted) db r found live in
    (record s { minted = s.minted + 1 }, rw (four-two db.version live, written), kept)

-- On a schema that is live at version 2 or 3, no failure is recorded: the read of the pinned
-- snapshot, whose exception is swallowed, has already aborted the transaction, so that
-- `_record_failure` raises and the run is as it was.
pub record_failure-refused :
    (conn : Conn) (run : RunRecord) (exc : Raised) (db : Db)
    → at_least 2 db.version ≡ true
    → at_least 4 db.version ≡ false
    → record_failure conn run exc db ≡ (err in_failed_transaction, db)
unfolding record_failure record_verdict record_structured record_with read_execution_metadata ◌>>=◌
record_failure-refused conn run exc db live old = rw (live, old)
