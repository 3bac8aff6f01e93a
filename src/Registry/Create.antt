-- ===== src/Registry/Create.antt =====
-- registry.py: `create_run`.
pub mod Idempotent
use workflow_runtime_core.Base.{
  ℕ, ◌+◌, String, Bool, true, false, not, ◌&&◌, ◌||◌, Option, none, some, ◌==◌, is_some, or_else,
  if◌then◌else◌,
}
use workflow_runtime_core.Exec.{
  ok, err, Exec, schema_version_mismatch, active_attempt_exists, unique_violation,
  foreign_key_violation, ◌>>=◌, ◌>>◌, gets,
}
use workflow_runtime_core.Json.{Json, null, str, obj, Fields, end, field}
use workflow_runtime_core.Models.{RunRecord, queued}
use workflow_runtime_core.Db.{
  Db, Conn, at_least, emit, Insertion, inserted, duplicate_id, duplicate_key, active_workspace,
  no_parent, insert_run,
}
use workflow_runtime_core.Registry.Record.{from_row, truthy, find_by_idempotency_key}

-- The arguments of `create_run`.
pub record NewRun : Type 0 where
  pub workflow : String
  pub config : Fields
  pub client_slug : Option String
  pub thread_id : Option String
  pub run_id : Option String
  pub image_tag : Option String
  pub job_template : Option Fields
  pub idempotency_key : Option String
  pub workspace_id : Option String
  pub retry_of : Option String
  pub attempt_no : ℕ
  pub input_set_id : Option String

-- `find_by_idempotency_key(conn, key) if key else None`
unfoldable pub existing_run : Option String → Db → Option RunRecord
unfolding find_by_idempotency_key
existing_run key db = elim (truthy key) [ none ↦ none | some k ↦ find_by_idempotency_key k db ]

abbrev pub lineage_requested : NewRun → Bool
lineage_requested new =
    is_some new.workspace_id
    || is_some new.retry_of
    || not (new.attempt_no == 1)
    || is_some new.input_set_id

-- `value or str(uuid.uuid4())`, with the number of identifiers drawn.
abbrev pub minted_after : Option String → ℕ → ℕ
minted_after given n = if is_some (truthy given) then n else n + 1

abbrev pub or_minted : Conn → Option String → ℕ → String
or_minted conn given n = or_else (truthy given) (conn.uuid4 n)

-- The row of the INSERT: the columns of version 2 hold their values only on a data plane.
abbrev pub new_row : Conn → NewRun → Bool → ℕ → RunRecord
new_row conn new data_plane n = record {
  run_id = or_minted conn new.run_id n;
  workflow = new.workflow;
  thread_id = or_else (truthy new.thread_id) (or_minted conn new.run_id n);
  status = queued;
  client_slug = new.client_slug;
  config_json = new.config;
  image_tag = new.image_tag;
  job_template_json = new.job_template;
  created_at = conn.now;
  updated_at = conn.now;
  interrupt_payload = none;
  error = none;
  artifacts_json = none;
  idempotency_key = new.idempotency_key;
  workspace_id =
      if data_plane
      then some (or_minted conn new.workspace_id (minted_after new.run_id n))
      else none;
  retry_of = if data_plane then new.retry_of else none;
  attempt_no = if data_plane then new.attempt_no else 1;
  dispatch_id = none;
  lease_owner = none;
  lease_expires_at = none;
  heartbeat_at = none;
  progress_json = none;
  error_json = none;
  delivery_count = 0;
  artifacts_published_at = none;
  input_set_id = if data_plane then new.input_set_id else none;
  execution_metadata_json = none;
  execution_metadata_column_present = true;
}

abbrev text_or_null : Option String → Json
text_or_null none = null
text_or_null (some s) = str s

abbrev pub created_detail : NewRun → Json
created_detail new =
    obj
      (field "workflow" (str new.workflow) (field "client_slug" (text_or_null new.client_slug) end))

-- `except UniqueViolation`: the run that holds the key, or the error of the index that failed.
abbrev pub after_conflict : Insertion → Option RunRecord → Exec Db RunRecord
after_conflict c (some existing) db = (ok existing, db)
after_conflict active_workspace none db = (err active_attempt_exists, db)
after_conflict c none db = (err unique_violation, db)

-- What follows the INSERT in its savepoint, by the INSERT's outcome.
unfoldable pub after_insert : Conn → NewRun → Insertion → Exec Db RunRecord
after_insert conn new (inserted r) db =
    (do emit conn r.run_id "created" (some (created_detail new)); gets (λ db'. from_row db' r)) db
after_insert conn new no_parent db = (err foreign_key_violation, db)
after_insert conn new conflict db = after_conflict conflict (existing_run new.idempotency_key db) db

-- The INSERT, in the database as it is when it runs: another session may have committed since
-- the key was looked up.
unfoldable pub insert_new : Conn → NewRun → Exec Db RunRecord
insert_new conn new db =
    let data_plane = at_least 2 db.version in
    let n = minted_after new.run_id db.minted in
    let counted = record db {
      minted = if data_plane then minted_after new.workspace_id n else n;
    } in
    let (outcome, db') = insert_run (new_row conn new data_plane db.minted) counted in
    after_insert conn new outcome db'

-- `create_run`, given what the look-up of its key found.
unfoldable pub create_run_found : Conn → NewRun → Option RunRecord → Exec Db RunRecord
create_run_found conn new (some existing) db = (ok existing, db)
create_run_found conn new none db =
    if lineage_requested new && not (at_least 2 db.version)
    then (err schema_version_mismatch, db)
    else insert_new conn new db

unfoldable pub create_run : Conn → NewRun → Exec Db RunRecord
unfolding create_run_found
create_run conn new db = create_run_found conn new (existing_run new.idempotency_key db) db
