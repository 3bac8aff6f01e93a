-- ===== src/Registry/Record.antt =====
-- registry.py, models.py: reading a run, and the values that several operations write.

use workflow_runtime_core.Base.{
  ℕ, zero, suc, String, Option, none, some, ◌==◌, str_eq, find?, is_text, if◌then◌else◌,
}
use workflow_runtime_core.Models.{RunRecord}
use workflow_runtime_core.Db.{Db, row, at_least}

-- `RunRecord.from_row`, at the live schema's version.
abbrev pub from_row : Db → RunRecord → RunRecord
from_row db r = record r {
  attempt_no = if r.attempt_no == 0 then 1 else r.attempt_no;
  execution_metadata_column_present = at_least 4 db.version;
}

abbrev pub read_row : Db → Option RunRecord → Option RunRecord
read_row db none = none
read_row db (some r) = some (from_row db r)

unfoldable pub get_run : String → Db → Option RunRecord
unfolding row
get_run run_id db = read_row db (row run_id db)

-- A value that is tested by `if value:` or `value or …`: the empty text counts as none.
abbrev pub truthy : Option String → Option String
truthy none = none
truthy (some s) = if str_eq s "" then none else some s

unfoldable pub find_by_idempotency_key : String → Db → Option RunRecord
find_by_idempotency_key key db = read_row db (find? (λ r. is_text r.idempotency_key key) db.runs)

-- text[:n]
unfoldable pub truncate : ℕ → String → String
truncate zero s = String.[]
truncate (suc n) String.[] = String.[]
truncate (suc n) (String.◌∷◌ c s) = String.◌∷◌ c (truncate n s)
