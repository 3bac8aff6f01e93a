-- ===== src/Tests/Grants.antt =====
-- Examples of the grants.
use workflow_runtime_core.Base.{◌≡◌, refl, true, false, [], ◌∷◌, at_most}
use workflow_runtime_core.Exec.{ok, ◌>>=◌}
use workflow_runtime_core.Migrations.Apply.{is_identifier}
use workflow_runtime_core.Grants.{
  can_truncate, table, Catalog, Server, grant, granted, core_manifest, statements,
  ledger_statements, run_statements, reconcile, missing_privileges, check_operational,
  check_ledgers, check_sequences, lacking, holding, has_privilege,
}

abbrev server : Server
server = record { accepts = λ s. true; exists = λ o. true; otherwise = λ r o p. false }

-- Everything was granted by hand.
abbrev widened : Catalog
widened r o p = true

abbrev reconciled : Catalog
unfolding reconcile run_statements statements ledger_statements granted ◌>>=◌ is_identifier
reconciled = (reconcile server core_manifest "app" "public" widened).1

-- A TRUNCATE on a ledger is nothing that the check reports.
truncate_unreported :
    missing_privileges server core_manifest "app" "public"
      (granted (grant (can_truncate ∷ []) (table "public" "schema_migrations") "app") reconciled)
    ≡ (
      ok [],
      granted (grant (can_truncate ∷ []) (table "public" "schema_migrations") "app") reconciled,
    )
unfolding missing_privileges check_operational check_ledgers check_sequences lacking holding
    has_privilege granted reconcile run_statements statements ledger_statements ◌>>=◌ is_identifier
    reconciled at_most
truncate_unreported = refl
