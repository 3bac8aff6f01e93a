-- ===== src/Registry/Metadata.antt =====
-- registry.py: the execution metadata of a run (schema v4).
pub mod Pinned
pub mod Kept
use workflow_runtime_core.Base.{
  ℕ, String, Bool, true, false, not, ◌&&◌, Option, none, some, List, [], ◌∷◌, ltb, str_eq, is_none,
  or_else, if◌then◌else◌,
}
use workflow_runtime_core.Exec.{
  ok, err, Exec, registry_error, execution_metadata_conflict, raise_if, ◌>>=◌, ◌>>◌, pure,
}
use workflow_runtime_core.Json
use workflow_runtime_core.Json.{
  Json, num, str, arr, obj, Items, nil, cons, Fields, end, field, same,
}
use workflow_runtime_core.Models.{RunRecord}
use workflow_runtime_core.Db.{Db, Conn, row, always, require_version, update_run}

-- coalesce(column, '{}')
abbrev pub stored : RunRecord → Fields
stored r = or_else r.execution_metadata_json end

-- stored.get("pinned")
unfoldable pub pinned_of : RunRecord → Option Json
pinned_of r = Json.get "pinned" (stored r)

abbrev pub pin : Conn → Fields → RunRecord → RunRecord
pin conn metadata r = record r {
  execution_metadata_json = some (field "pinned" (obj metadata) end);
  updated_at = conn.now;
}

abbrev pub equals_pin : Option Json → Fields → Bool
equals_pin none metadata = false
equals_pin (some existing) metadata = same existing (obj metadata)

-- What the second writer is told.
unfoldable pub compare_pin : Fields → Option RunRecord → Exec Db Fields
compare_pin metadata none db = (err registry_error, db)
compare_pin metadata (some r) db =
    if equals_pin (pinned_of r) metadata
    then (ok metadata, db)
    else (err execution_metadata_conflict, db)

unfoldable pub after_pin : String → Fields → Option RunRecord → Exec Db Fields
after_pin run_id metadata (some r) db = (ok metadata, db)
after_pin run_id metadata none db = compare_pin metadata (row run_id db) db

unfoldable pub pin_execution_metadata : Conn → String → Fields → Exec Db Fields
pin_execution_metadata conn run_id metadata = do
  require_version 4
  written ← update_run run_id (λ r. is_none r.execution_metadata_json) (pin conn metadata)
  after_pin run_id metadata written

abbrev pub as_dict : Option Json → Option Fields
as_dict (some (obj d)) = some d
as_dict _ = none

read_pin : Option RunRecord → Exec Db (Option Fields)
unfolding pinned_of
read_pin none db = (err registry_error, db)
read_pin (some r) db = (ok (as_dict (pinned_of r)), db)

unfoldable pub read_execution_metadata : String → Exec Db (Option Fields)
unfolding read_pin
read_execution_metadata run_id = do require_version 4; λ db. read_pin (row run_id db) db

is_string : Json → Bool
is_string (str s) = true
is_string _ = false

unfoldable pub all_strings : Fields → Bool
unfolding is_string
all_strings end = true
all_strings (field k v d) = is_string v && all_strings d

-- The object under a key of the column, `'{}'` where there is none: only these functions write
-- there, and they write objects.
abbrev pub object_at : String → Fields → Fields
object_at k d = or_else (as_dict (Json.get k d)) end

-- column || jsonb_build_object(k, coalesce(column -> k, '{}') || jsonb_build_object(attempt, v))
abbrev pub note_attempt : Conn → String → ℕ → Json → RunRecord → RunRecord
note_attempt conn k attempt_no v r = record r {
  execution_metadata_json = some (
      Json.put k (obj (Json.put (conn.text_of (num attempt_no)) v (object_at k (stored r))))
        (stored r));
  updated_at = conn.now;
}

unfoldable pub record_credential_sources : Conn → String → Fields → ℕ → Exec Db (Unit {0})
record_credential_sources conn run_id sources attempt_no = do
  raise_if (not (all_strings sources)) registry_error
  require_version 4
  update_run run_id always (note_attempt conn "credential_sources" attempt_no (obj sources))
  pure tt

abbrev pub set_ceiling : Conn → ℕ → RunRecord → RunRecord
set_ceiling conn minutes r = record r {
  execution_metadata_json =
      some
        (Json.put "spend_ceiling" (obj (field "max_runtime_minutes" (num minutes) end)) (stored r));
  updated_at = conn.now;
}

unfoldable pub record_spend_ceiling : Conn → String → ℕ → Exec Db (Unit {0})
record_spend_ceiling conn run_id minutes = do
  raise_if (ltb minutes 1) registry_error
  require_version 4
  update_run run_id always (set_ceiling conn minutes)
  pure tt

-- DEGRADATION_KINDS
is_degradation_kind : Option Json → Bool
is_degradation_kind (some (str kind)) = str_eq kind "credential_unfunded"
is_degradation_kind _ = false

is_clean : Fields → Bool
unfolding is_degradation_kind
is_clean entry = is_degradation_kind (Json.get "kind" entry) && all_strings entry

unfoldable pub all_clean : List Fields → Bool
unfolding is_clean
all_clean [] = true
all_clean (entry ∷ entries) = is_clean entry && all_clean entries

as_items : List Fields → Items
as_items [] = nil
as_items (entry ∷ entries) = cons (obj entry) (as_items entries)

unfoldable pub record_degradations : Conn → String → List Fields → ℕ → Exec Db (Unit {0})
unfolding as_items
record_degradations conn run_id [] attempt_no = pure tt
record_degradations conn run_id (entry ∷ entries) attempt_no = do
  raise_if (not (all_clean (entry ∷ entries))) registry_error
  require_version 4
  update_run run_id always
      (note_attempt conn "degradations" attempt_no (arr (as_items (entry ∷ entries))))
  pure tt
