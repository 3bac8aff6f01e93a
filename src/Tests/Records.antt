-- ===== src/Tests/Records.antt =====
-- Examples of the outcomes of runs, their metadata, retention and the queries.
use workflow_runtime_core.Base.{
  min, select, sort_by, insert_by, ◌≡◌, refl, inl, true, none, some, [], ◌∷◌, length, All,
  if◌then◌else◌,
}
use workflow_runtime_core.Exec.{ok, err, ◌>>=◌, execution_metadata_conflict}
use workflow_runtime_core.Json
use workflow_runtime_core.Json.{Json, Fields, end, field, str, obj}
use workflow_runtime_core.Models.{RunRecord, running, paused, completed, is_running}
use workflow_runtime_core.Db.{Db, row, update_run, emit}
use workflow_runtime_core.Registry.Record.{from_row}
use workflow_runtime_core.Registry.Claim.{claim_run}
use workflow_runtime_core.Registry.Outcome.{
  cancel_run, cancel_row, mark_completed, request_resume, resume_row, resume_key,
}
use workflow_runtime_core.Registry.Outcome.Settle.{cancel-mark_completed}
use workflow_runtime_core.Registry.Outcome.Resume.{resume-claim_run}
use workflow_runtime_core.Registry.Metadata.{
  pinned_of, equals_pin, pin_execution_metadata, record_spend_ceiling, record_credential_sources,
  record_degradations,
}
use workflow_runtime_core.Registry.Metadata.Pinned.{pin_once}
use workflow_runtime_core.Registry.Metadata.Kept.{recorded-pin, pin_at}
use workflow_runtime_core.Registry.Retention.{
  is_stale, is_lineage_safe, delete_run, prune_terminal_runs,
}
use workflow_runtime_core.Registry.Retention.Kept.{retention-kept}
use workflow_runtime_core.Registry.History.{create, claim, perform, history, migrated}
use workflow_runtime_core.Registry.Queries.{
  list_runs, latest, retention_candidates, candidates, candidate,
}
use workflow_runtime_core.Registry.Queries.Scope.{
  list_runs-scoped, retention_candidates-IsOffered, IsOffered, IsListed, in_scope,
}
use workflow_runtime_core.Registry.Lifecycle.{Moved, status_of}
use workflow_runtime_core.Registry.Lifecycle.Sessions.{history-Moved}
use workflow_runtime_core.Tests.Samples.{session, new_run, run_in, db_with}
use workflow_runtime_core.Tests.Runs.{busy}

cancel-mark_completed_example :
    (db'' : Db) × (mark_completed (session 30) "r1" none true (cancel_run (session 20) "r1" busy).1
      ≡ (ok tt, db''))
    × (status_of (row "r1" db'') ≡ some completed)
unfolding cancel_run cancel_row update_run row emit ◌>>=◌
cancel-mark_completed_example =
    cancel-mark_completed (session 30) "r1" none true (session 20) busy _ _ refl refl

resume-claim_run_example :
    (claimed : RunRecord) × ((claim_run
        (session 30)
        "r1"
        (request_resume (session 20) "r1" (str "yes") (db_with (run_in paused none none ∷ []))).1).0
      ≡ ok (some claimed))
    × (is_running claimed.status ≡ true)
    × (Json.get resume_key claimed.config_json ≡ some (str "yes"))
    × (claimed.interrupt_payload ≡ none)
unfolding request_resume resume_row update_run row emit ◌>>=◌
resume-claim_run_example =
    resume-claim_run (session 20) "r1" (str "yes") (session 30)
      (db_with (run_in paused none none ∷ [])) _ _ refl

-- A run whose metadata is pinned.
abbrev pinned_run : RunRecord
pinned_run = record (run_in running none none) {
  execution_metadata_json = some (field "pinned" (obj (field "model" (str "a") end)) end);
}

pin_once_example :
    ((pin_execution_metadata
        (session 20)
        "r1"
        (field "model" (str "b") end)
        (db_with (pinned_run ∷ []))).0
      ≡ (if equals_pin (pinned_of pinned_run) (field "model" (str "b") end)
          then ok (field "model" (str "b") end)
          else err execution_metadata_conflict))
    × (row "r1"
          (pin_execution_metadata
            (session 20)
            "r1"
            (field "model" (str "b") end)
            (db_with (pinned_run ∷ []))).1
        ≡ some pinned_run)
unfolding row
pin_once_example =
    pin_once (session 20) "r1" (db_with (pinned_run ∷ [])) pinned_run refl refl
      (field "model" (str "b") end) (field "pinned" (obj (field "model" (str "a") end)) end) refl

recorded-pin_example :
    (pin_at (row "r1" (record_spend_ceiling (session 20) "r1" 30 (db_with (pinned_run ∷ []))).1)
      ≡ pin_at (row "r1" (db_with (pinned_run ∷ []))))
    × (pin_at (
          row "r1"
            (record_credential_sources (session 20) "r1" end 1 (db_with (pinned_run ∷ []))).1)
        ≡ pin_at (row "r1" (db_with (pinned_run ∷ []))))
    × (pin_at (row "r1" (record_degradations (session 20) "r1" [] 1 (db_with (pinned_run ∷ []))).1)
        ≡ pin_at (row "r1" (db_with (pinned_run ∷ []))))
recorded-pin_example = recorded-pin (session 20) "r1" "r1" (db_with (pinned_run ∷ [])) 30 1 end []

retention-kept_example :
    (row "r1" (delete_run (session 99999999999) "r1" 0 busy).1
      ≡ some (run_in running (some "worker-1") (some 60000010)))
    × (row "r1" (prune_terminal_runs (session 99999999999) 0 busy).1
        ≡ some (run_in running (some "worker-1") (some 60000010)))
unfolding row
retention-kept_example =
    retention-kept (session 99999999999) 0 busy (run_in running (some "worker-1") (some 60000010))
      "r1" "r1" refl refl (inl refl)

-- A run that is pinned, and has sources of credentials.
abbrev public_run : RunRecord
public_run = record (run_in running (some "worker-1") (some 60000010)) {
  execution_metadata_json =
      some (field "pinned" (str "a") (field "credential_sources" (obj end) end));
}

history-Moved_example :
    Moved "r1"
      (history ((session 1, create new_run) ∷ []) (migrated 5))
      (perform (session 2) (claim "r1") (history ((session 1, create new_run) ∷ []) (migrated 5)))
history-Moved_example =
    history-Moved 5 ((session 1, create new_run) ∷ []) (session 2) (claim "r1") "r1"

list_runs-scoped_example :
    All
      (IsListed (some "acme") none busy)
      (from_row busy (run_in running (some "worker-1") (some 60000010)) ∷ [])
    × (length (from_row busy (run_in running (some "worker-1") (some 60000010)) ∷ [])
        ≡ min 5 (length (select (in_scope (some "acme") none) busy.runs)))
    × (busy ≡ busy)
unfolding list_runs latest sort_by insert_by
list_runs-scoped_example =
    list_runs-scoped (some "acme") none 5 busy busy
      (from_row busy (run_in running (some "worker-1") (some 60000010)) ∷ []) refl

retention_candidates-IsOffered_example :
    All
      (IsOffered (session 99999999999) 1 (db_with (run_in completed none none ∷ [])))
      (candidate (run_in completed none none) ∷ [])
unfolding retention_candidates candidates sort_by insert_by is_stale is_lineage_safe
retention_candidates-IsOffered_example =
    retention_candidates-IsOffered (session 99999999999) 1 5
      (db_with (run_in completed none none ∷ [])) (db_with (run_in completed none none ∷ []))
      (candidate (run_in completed none none) ∷ []) refl
