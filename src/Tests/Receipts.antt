-- ===== src/Tests/Receipts.antt =====
-- Examples of the receipts and of the migration ledger.
use mathlib.Core.Logic.{◌↔◌}
use workflow_runtime_core.Base.{
  ℕ, ◌==◌, ◌≡◌, refl, true, false, Option, none, some, List, [], ◌∷◌, arith, All, pos, codes,
  is_blank, if◌then◌else◌,
}
use workflow_runtime_core.Exec.{ok, ◌>>=◌}
use workflow_runtime_core.Json.{end, encoded_length}
use workflow_runtime_core.Db.{Db, Conn, DeliveryReceipt, ReceiptStatus, LedgerRow}
use workflow_runtime_core.Schema.{require_compatible_schema, require_live, read_schema_version}
use workflow_runtime_core.Migrations.Ledger.{
  migrations, ledger_rows, verify_ledger, verify_rows, is_verified, is_foreign, has_gap,
  is_recorded, checksum, ledger_exists,
}
use workflow_runtime_core.Migrations.Ledger.Verified.{Trusted, Accounted, verify_ledger-exact}
use workflow_runtime_core.Migrations.Apply.{Principal, apply_migrations, may_write}
use workflow_runtime_core.Migrations.App.{apply_app_migrations}
use workflow_runtime_core.Migrations.Apply.Privilege.{Refused, unprivileged-Refused}
use workflow_runtime_core.Messaging.Receipts.Settle
use workflow_runtime_core.Messaging.Receipts.Sql.{change_row, execute_operation, receipt, open_row}
use workflow_runtime_core.Messaging.Receipts.Transition.{
  Key, predicate, assignments, moved, transition_name,
}
use workflow_runtime_core.Messaging.Receipts.Ops
use workflow_runtime_core.Messaging.Receipts.Ops.{
  ReceiptActor, service, make_actor, audited, change,
}
use workflow_runtime_core.Messaging.Receipts.Settle.{worker, start_effect}
use workflow_runtime_core.Messaging.Receipts.Steps.{
  ReceiptStep, open_step, claim_step, work_step, start, deliver, work, take_step, take_steps,
}
use workflow_runtime_core.Messaging.Receipts.Log.{trail, place, log-place}
use workflow_runtime_core.Messaging.Receipts.Retired.{Retired, Retired-forever}
use workflow_runtime_core.Messaging.Receipts.Fenced.{Denied, Superseded-forever}
use workflow_runtime_core.Messaging.Receipts.Effect.{effect_once}
use workflow_runtime_core.Messaging.Receipts.Lifecycle.{Follows, status-Follows}
use workflow_runtime_core.Registry.History.{commit}
use workflow_runtime_core.Tests.Samples.{session, db_with}

abbrev key : Key
key = record { service_namespace = "reports"; destination = "mail"; message_id = "m1" }

abbrev actor : ReceiptActor
actor = record { kind = service; subject = "opener" }

abbrev ledger_at : ℕ → LedgerRow
ledger_at v = record {
  namespace = "core";
  version = v;
  name = "step";
  checksum = if v == 5 then "v5" else "v";
}

abbrev ready : Db
ready = record (db_with []) {
  ledger = some (ledger_at 2 ∷ ledger_at 3 ∷ ledger_at 4 ∷ ledger_at 5 ∷ []);
}

-- A receipt at a status, with its claim under an epoch.
abbrev receipt_in : ReceiptStatus → ℕ → Option ℕ → DeliveryReceipt
receipt_in status epoch started = record {
  service_namespace = "reports";
  destination = "mail";
  message_id = "m1";
  status = status;
  attempts = 1;
  next_attempt_at = 0;
  provider_ref = none;
  lease_owner = some "worker";
  lease_expires_at = some 90;
  last_error = none;
  updated_at = 0;
  claim_epoch = epoch;
  event_version = 3;
  effect_started_at = started;
  provider_ref_recorded_at = none;
}

abbrev sending : Db
sending = record ready { receipts = receipt_in ReceiptStatus.sending 2 none ∷ [] }

abbrev lost : Db
lost = record ready { receipts = receipt_in ReceiptStatus.uncertain 2 (some 5) ∷ [] }

abbrev steps : List (Conn × ReceiptStep)
steps =
    (session 10, open_step key actor)
    ∷ (session 20, claim_step key "worker" (pos 60))
    ∷ (session 30, work_step key "worker" 1 start)
    ∷ (session 40, work_step key "worker" 1 (deliver none))
    ∷ []

-- The steps open the receipt, claim it, start its effect and deliver it.
delivered_at_four :
    place (receipt key (take_steps steps ready))
    ≡ place (some (record (receipt_in ReceiptStatus.delivered 1 (some 30)) { event_version = 4 }))
unfolding take_steps take_step commit Ops.open_receipt Ops.claim Ops.expire Settle.start_effect
    Settle.mark_delivered Settle.settle work worker change make_actor audited is_blank codes
    encoded_length require_compatible_schema require_live read_schema_version verify_ledger
    is_verified verify_rows is_foreign has_gap is_recorded ledger_rows checksum migrations open_row
    receipt execute_operation change_row predicate moved assignments transition_name ◌>>=◌
delivered_at_four = refl

log-place_example :
    trail key (take_steps steps ready).receipt_events ≡ place (receipt key (take_steps steps ready))
log-place_example = log-place key steps ready refl refl

Retired-forever_example :
    Retired (receipt_in ReceiptStatus.uncertain 2 (some 5)) (receipt key (take_steps steps lost))
unfolding receipt
Retired-forever_example =
    Retired-forever key (receipt_in ReceiptStatus.uncertain 2 (some 5)) steps lost refl refl

Superseded-forever_example :
    Denied
      (take_steps steps sending)
      (work (session 50) key "worker" 1 (deliver none) (take_steps steps sending))
unfolding receipt
Superseded-forever_example =
    Superseded-forever key "worker" 1 (session 50) (deliver none) steps sending (omega arith)

status-Follows_example : Follows ReceiptStatus.sending (receipt key (take_steps steps sending))
unfolding receipt
status-Follows_example =
    status-Follows key (receipt_in ReceiptStatus.sending 2 none) steps sending refl

abbrev started : Db
started = record ready {
  receipts =
      record (receipt_in ReceiptStatus.sending 2 (some 10)) { event_version = 4; updated_at = 10 }
      ∷ [];
  receipt_events =
      record {
        service_namespace = "reports";
        destination = "mail";
        message_id = "m1";
        event_version = 4;
        transition = "start_effect";
        from_status = some ReceiptStatus.sending;
        to_status = ReceiptStatus.sending;
        actor_kind = "service";
        actor = "worker";
        reason = "Provider effect authorized to start";
        evidence = end;
        created_at = 10;
      }
      ∷ [];
}

effect_once_example :
    Denied
      (take_steps steps started)
      (start_effect (session 50) key "worker" 2 (take_steps steps started))
unfolding take_steps take_step commit Ops.open_receipt Ops.claim Ops.expire Settle.start_effect
    Settle.mark_delivered Settle.settle work worker change make_actor audited is_blank codes
    encoded_length require_compatible_schema require_live read_schema_version verify_ledger
    is_verified verify_rows is_foreign has_gap is_recorded ledger_rows checksum migrations open_row
    receipt execute_operation change_row predicate moved assignments transition_name ◌>>=◌
effect_once_example =
    effect_once (session 10) (session 50) key "worker" "worker" 2 sending started steps refl

abbrev rows : List LedgerRow
rows = ledger_at 2 ∷ ledger_at 3 ∷ ledger_at 4 ∷ ledger_at 5 ∷ []

verify_ledger-exact_example :
    (verify_ledger (session 10) "core" (migrations (session 10)) (some 5) ready ≡ (ok tt, ready))
    ↔ (All (Trusted (session 10) (migrations (session 10))) (ledger_rows "core" rows)
        × Accounted 5 (ledger_rows "core" rows))
verify_ledger-exact_example =
    verify_ledger-exact (session 10) "core" (migrations (session 10)) 5 ready rows refl

-- A login that may not write the ledger.
abbrev application : Principal
application = record {
  is_member = λ role. false;
  may_insert = λ role. false;
  may_create = λ role. true;
  accepts = λ sql. true;
}

unprivileged-Refused_example :
    Refused ready (apply_migrations (session 10) application none none ready)
    × Refused ready (apply_app_migrations (session 10) application "facade" [] none ready)
unfolding may_write ledger_exists
unprivileged-Refused_example =
    unprivileged-Refused (session 10) application none none "facade" [] ready refl
