-- ===== src/Tests/Runs.antt =====
-- Examples of the run registry.
use mathlib.Core.Logic.{◌↔◌}
use workflow_runtime_core.Base.{◌≡◌, refl, true, false, none, some, [], ◌∷◌, arith}
use workflow_runtime_core.Exec.{ok, ◌>>=◌}
use workflow_runtime_core.Models.{
  RunRecord, queued, running, cancelled, cancellation_state, confirmed,
}
use workflow_runtime_core.Db.{Db, row, update_run, emit, insert_run}
use workflow_runtime_core.Registry.Record.{find_by_idempotency_key}
use workflow_runtime_core.Registry.Create.{
  create_run, create_run_found, existing_run, insert_new, after_insert,
}
use workflow_runtime_core.Registry.Create.Idempotent.{create_run_once}
use workflow_runtime_core.Registry.Claim.{claim_run, claim_dispatch, claim_dispatched}
use workflow_runtime_core.Registry.Claim.Exclusive.{claim_dispatch_exclusive}
use workflow_runtime_core.Registry.Lease.{renew_lease, release_cancelled_attempt_lease, drop_lease}
use workflow_runtime_core.Registry.Lease.Takeover.{takeover}
use workflow_runtime_core.Registry.Lease.Acknowledge.{Holds, release-confirmed}
use workflow_runtime_core.Registry.Outcome.{cancel_run, cancel_row}
use workflow_runtime_core.Registry.Outcome.Cancel.{cancel_run_stops}
use workflow_runtime_core.Registry.Invariant.{IsSound}
use workflow_runtime_core.Registry.History.{create, claim, cancel, history, migrated}
use workflow_runtime_core.Registry.History.Sound.{history-IsSound}
use workflow_runtime_core.Tests.Samples.{session, new_run, run_in, db_with}

history-IsSound_example : IsSound (
    history
      ((session 1, create new_run) ∷ (session 2, claim "r1") ∷ (session 3, cancel "r1") ∷ [])
      (migrated 5))
history-IsSound_example =
    history-IsSound 5
      ((session 1, create new_run) ∷ (session 2, claim "r1") ∷ (session 3, cancel "r1") ∷ [])

claim_dispatch_exclusive_example :
    claim_dispatch
      (session 20)
      "r1"
      "d1"
      "worker-2"
      60
      (claim_dispatch
        (session 10)
        "r1"
        "d1"
        "worker-1"
        60
        (db_with (run_in queued none none ∷ []))).1
    ≡ (
      ok none,
      (claim_dispatch
          (session 10)
          "r1"
          "d1"
          "worker-1"
          60
          (db_with (run_in queued none none ∷ []))).1,
    )
unfolding claim_dispatch claim_dispatched update_run row emit ◌>>=◌
claim_dispatch_exclusive_example =
    claim_dispatch_exclusive (session 10) (session 20) "r1" "d1" "d1" "worker-1" "worker-2" 60 60
      (db_with (run_in queued none none ∷ [])) _ _ refl (omega arith)

create_run_once_example :
    create_run
      (session 20)
      (record new_run { workflow = "other" })
      (create_run (session 10) new_run (db_with [])).1
    ≡ create_run (session 10) new_run (db_with [])
unfolding create_run create_run_found existing_run find_by_idempotency_key insert_new insert_run
    after_insert emit row ◌>>=◌
create_run_once_example =
    create_run_once (session 10) (session 20) new_run (record new_run { workflow = "other" })
      "key-1" (db_with []) _ _ refl refl refl

takeover_example :
    (c : RunRecord) × (db' : Db) × (claim_dispatch
        (session 70000000)
        "r1"
        "d1"
        "worker-2"
        60
        (db_with (run_in running (some "worker-1") (some 60000010) ∷ []))
      ≡ (ok (some c), db'))
    × (c.lease_owner ≡ some "worker-2")
    × ((renew_lease (session 70000001) "r1" "worker-1" 60 db').0 ≡ ok false)
unfolding row
takeover_example =
    takeover (session 70000000) (session 70000001) "r1" "d1" "worker-1" "worker-2" 60 60
      (db_with (run_in running (some "worker-1") (some 60000010) ∷ []))
      (run_in running (some "worker-1") (some 60000010)) refl refl refl refl refl refl

-- A database with one run that its worker has been told to stop.
abbrev cancelling : RunRecord
cancelling = run_in cancelled (some "worker-1") (some 60000010)

release-confirmed_example :
    (((release_cancelled_attempt_lease (session 20) "r1" 1 "worker-1" (db_with (cancelling ∷ []))).0
        ≡ ok true)
      ↔ Holds 1 "worker-1" cancelling)
    × (row "r1"
          (release_cancelled_attempt_lease
            (session 20)
            "r1"
            1
            "worker-1"
            (db_with (cancelling ∷ []))).1
        ≡ some (drop_lease (session 20) cancelling))
    × (cancellation_state (drop_lease (session 20) cancelling) 30 ≡ confirmed)
unfolding row
release-confirmed_example =
    release-confirmed (session 20) "r1" 1 "worker-1" (db_with (cancelling ∷ [])) cancelling refl
      refl 30 refl

-- A database with one running run.
abbrev pub busy : Db
busy = db_with (run_in running (some "worker-1") (some 60000010) ∷ [])

cancel_run_stops_example :
    (claim_run (session 30) "r1" (cancel_run (session 20) "r1" busy).1
      ≡ (ok none, (cancel_run (session 20) "r1" busy).1))
    × ((claim_dispatch (session 30) "r1" "d1" "worker-1" 60 (cancel_run (session 20) "r1" busy).1
          ≡ (ok none, (cancel_run (session 20) "r1" busy).1))
        × ((renew_lease (session 30) "r1" "worker-1" 60 (cancel_run (session 20) "r1" busy).1).0
            ≡ ok false))
unfolding cancel_run cancel_row update_run row emit ◌>>=◌
cancel_run_stops_example =
    cancel_run_stops (session 20) (session 30) "r1" "d1" "worker-1" 60 busy _ _ refl refl
