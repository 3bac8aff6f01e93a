-- ===== src/Registry/Retry.antt =====
-- registry.py: `create_retry` and `_inherit_execution_snapshot`.
use workflow_runtime_core.Base.{
  ℕ, ◌+◌, String, Option, none, some, List, [], ◌∷◌, ◌==◌, is_text, or_else, max, if◌then◌else◌,
  is_none,
}
use workflow_runtime_core.Exec.{
  ok, err, Exec, registry_error, retry_not_allowed, schema_version_mismatch, ◌>>=◌, ◌>>◌, pure,
}
use workflow_runtime_core.Json
use workflow_runtime_core.Json.{Json, null, num, str, obj, Fields, end, field}
use workflow_runtime_core.Models.{RunRecord, is_failed}
use workflow_runtime_core.Db.{Db, Conn, update_run, emit}
use workflow_runtime_core.Registry.Record.{get_run}
use workflow_runtime_core.Registry.Create.{NewRun, create_run}

-- The optional arguments of `create_retry`.
pub record RetryArgs : Type 0 where
  pub new_run_id : Option String
  pub job_template : Option Fields
  pub image_tag : Option String
  pub config : Option Fields

-- SELECT max(attempt_no) FROM runs WHERE workspace_id = %s, and 0 for the NULL of no row.
abbrev pub highest_attempt : String → List RunRecord → ℕ
highest_attempt w [] = 0
highest_attempt w (r ∷ runs) =
    let rest = highest_attempt w runs in
    if is_text r.workspace_id w then max r.attempt_no rest else rest

-- `(…).get("highest") or parent.attempt_no`
abbrev pub highest_or : ℕ → ℕ → ℕ
highest_or highest parent_attempt = if highest == 0 then parent_attempt else highest

abbrev dict_or_null : Option Json → Json
dict_or_null (some (obj d)) = obj d
dict_or_null _ = null

abbrev stored_pin : Option Fields → Option Json
stored_pin none = none
stored_pin (some stored) = Json.get "pinned" stored

-- {"pinned": pinned if isinstance(pinned, dict) else None}
abbrev pub inherited_payload : RunRecord → Fields
inherited_payload parent =
    field "pinned" (dict_or_null (stored_pin parent.execution_metadata_json)) end

unfoldable pub inherit_execution_snapshot : Conn → RunRecord → String → Exec Db (Option Fields)
inherit_execution_snapshot conn parent attempt_id db =
    if parent.execution_metadata_column_present
    then (do
      update_run attempt_id (λ r. is_none r.execution_metadata_json)
          (λ r. record r {
            execution_metadata_json = some (inherited_payload parent);
            updated_at = conn.now;
          })
      pure (some (inherited_payload parent)))
        db
    else (ok none, db)

abbrev pub or_parent {ℓ} : {A : Type ℓ} → Option A → Option A → Option A
or_parent none parent = parent
or_parent (some a) parent = some a

-- The arguments that `create_retry` passes to `create_run`.
abbrev pub next_attempt : RunRecord → String → RetryArgs → ℕ → NewRun
next_attempt parent workspace args highest = record {
  workflow = parent.workflow;
  config = or_else args.config parent.config_json;
  client_slug = parent.client_slug;
  thread_id = none;
  run_id = args.new_run_id;
  image_tag = or_parent args.image_tag parent.image_tag;
  job_template = or_parent args.job_template parent.job_template_json;
  idempotency_key = none;
  workspace_id = some workspace;
  retry_of = some parent.run_id;
  attempt_no = highest + 1;
  input_set_id = parent.input_set_id;
}

abbrev pub with_metadata : RunRecord → Option Fields → RunRecord
with_metadata attempt none = attempt
with_metadata attempt (some inherited) = record attempt { execution_metadata_json = some inherited }

abbrev pub retried_detail : RunRecord → Json
retried_detail attempt =
    obj (field "attempt" (str attempt.run_id) (field "attempt_no" (num attempt.attempt_no) end))

-- The rest of `create_retry` for a failed parent that has a workspace.
unfoldable pub mint_attempt : Conn → RunRecord → String → RetryArgs → Exec Db RunRecord
mint_attempt conn parent workspace args db =
    let highest = highest_or (highest_attempt workspace db.runs) parent.attempt_no in
    (do
      attempt ← create_run conn (next_attempt parent workspace args highest)
      inherited ← inherit_execution_snapshot conn parent attempt.run_id
      emit conn parent.run_id "retried" (some (retried_detail attempt))
      pure (with_metadata attempt inherited))
      db

unfoldable pub retry_workspace : Conn → RunRecord → Option String → RetryArgs → Exec Db RunRecord
retry_workspace conn parent none args db = (err schema_version_mismatch, db)
retry_workspace conn parent (some workspace) args db = mint_attempt conn parent workspace args db

unfoldable pub retry_parent : Conn → Option RunRecord → RetryArgs → Exec Db RunRecord
unfolding retry_workspace
retry_parent conn none args db = (err registry_error, db)
retry_parent conn (some parent) args db =
    if is_failed parent.status
    then retry_workspace conn parent parent.workspace_id args db
    else (err retry_not_allowed, db)

unfoldable pub create_retry : Conn → String → RetryArgs → Exec Db RunRecord
unfolding retry_parent
create_retry conn run_id args db = retry_parent conn (get_run run_id db) args db
