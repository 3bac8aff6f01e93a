-- ===== src/Executor/Progress.antt =====
-- executor/progress.py: the recorder of node completions, with its rate limit.
use workflow_runtime_core.Base.{
  ℕ, ◌+◌, ◌-◌, String, Bool, true, false, Option, none, some, List, [], ◌∷◌, leb, ◌==◌, length,
  codes, if◌then◌else◌,
}
use workflow_runtime_core.Exec.{Result, ok, err}
use workflow_runtime_core.Json.{Json, null, num, str, Fields, end, field}
use workflow_runtime_core.Db.{Db, Conn}
use workflow_runtime_core.Registry.History.{commit}
use workflow_runtime_core.Registry.Lease.{record_progress}

-- `ProgressRecorder`. Times are microseconds of the monotonic clock.
pub record Recorder : Type 0 where
  pub run_id : String
  pub interval : ℕ
  pub nodes_completed : ℕ
  pub last_node : Option String
  pub last_write : Option ℕ
  pub unwritten : Bool
  pub disabled : Bool

abbrev pub new_recorder : String → ℕ → ℕ → Recorder
new_recorder run_id interval nodes_completed = record {
  run_id = run_id;
  interval = interval;
  nodes_completed = nodes_completed;
  last_node = none;
  last_write = none;
  unwritten = false;
  disabled = false;
}

-- key.startswith("__")
abbrev is_channel : List ℕ → Bool
is_channel [] = false
is_channel (c ∷ []) = false
is_channel (c ∷ d ∷ cs) = if c == b'_' then d == b'_' else false

unfoldable pub node_names : List String → List String
unfolding codes
node_names [] = []
node_names (key ∷ keys) =
    let rest = node_names keys in if is_channel (codes key) then rest else key ∷ rest

abbrev pub text_or_null : Option String → Json
text_or_null none = null
text_or_null (some s) = str s

unfoldable pub snapshot : Conn → Recorder → Fields
snapshot conn r = field "node" (text_or_null r.last_node) (
    field "nodes_completed" (num r.nodes_completed)
      (field "at" (str (conn.isoformat conn.utcnow)) end))

-- `_write_blocking` either commits or raises; an error of any kind disables the recorder.
abbrev after_write : ℕ → Recorder → Result (Unit {0}) → Recorder
after_write clock r (ok done) = record r { last_write = some clock; unwritten = false }
after_write clock r (err e) = record r { disabled = true }

abbrev pub write_unless : Bool → Conn → ℕ → Recorder → Db → Recorder × Db
write_unless true conn clock r db = (r, db)
write_unless false conn clock r db = (
  after_write clock r (record_progress conn r.run_id (snapshot conn r) db).0,
  commit (record_progress conn r.run_id (snapshot conn r)) db,
)

-- `_write`; `clock` is the monotonic clock after the write.
unfoldable pub write : Conn → ℕ → Recorder → Db → Recorder × Db
write conn clock r db = write_unless r.disabled conn clock r db

abbrev pub is_due : Recorder → ℕ → Option ℕ → Bool
is_due r now none = true
is_due r now (some last) = leb r.interval (now - last)

abbrev last_of : String → List String → String
last_of name [] = name
last_of name (n ∷ names) = last_of n names

-- What one chunk adds to the count.
unfoldable pub count : List String → Recorder → Recorder
count [] r = r
count (name ∷ names) r = record r {
  nodes_completed = r.nodes_completed + length (name ∷ names);
  last_node = some (last_of name names);
  unwritten = true;
}

abbrev pub observe_names : Conn → ℕ → ℕ → List String → Recorder → Db → Recorder × Db
observe_names conn now clock [] r db = (r, db)
observe_names conn now clock (name ∷ names) r db =
    let counted = count (name ∷ names) r in
    if is_due counted now r.last_write then write conn clock counted db else (counted, db)

-- `observe`; `now` is the monotonic clock at the chunk.
unfoldable pub observe : Conn → ℕ → ℕ → List String → Recorder → Db → Recorder × Db
observe conn now clock keys r db = observe_names conn now clock (node_names keys) r db

unfoldable pub flush : Conn → ℕ → Recorder → Db → Recorder × Db
flush conn clock r db = if r.unwritten then write conn clock r db else (r, db)
