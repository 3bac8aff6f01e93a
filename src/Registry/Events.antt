-- ===== src/Registry/Events.antt =====
-- registry.py: the event timeline of a run.
pub mod Timeline
use workflow_runtime_core.Base.{
  ℕ, String, Bool, true, false, not, ◌&&◌, ◌||◌, Option, none, some, List, [], ◌∷◌, map, select,
  take, ◌==◌, ltb, str_eq, is_lower, is_digit, at_most, codes, sort_by, if◌then◌else◌,
}
use workflow_runtime_core.Exec.{Exec, registry_error, raise_if, ◌>>=◌, ◌>>◌}
use workflow_runtime_core.Json.{obj, Fields}
use workflow_runtime_core.Json.{Json}
use workflow_runtime_core.Db.{Db, Conn, Event, emit}

unfoldable pub is_one_of : String → List String → Bool
is_one_of s [] = false
is_one_of s (x ∷ xs) = str_eq s x || is_one_of s xs

-- CORE_EVENT_KINDS
abbrev pub core_event_kinds : List String
core_event_kinds =
    "created" ∷ "retried" ∷ "claimed" ∷ "dispatch_failed" ∷ "lease_expired" ∷ "paused"
    ∷ "resume_requested" ∷ "cancelled" ∷ "completed" ∷ "failed" ∷ "retention_started"
    ∷ "lease_released" ∷ []

-- PUBLIC_EVENT_KINDS
abbrev pub public_event_kinds : List String
public_event_kinds =
    "created" ∷ "claimed" ∷ "paused" ∷ "resume_requested" ∷ "cancelled" ∷ "lease_released"
    ∷ "lease_expired" ∷ "completed" ∷ "failed" ∷ "retention_started" ∷ []

-- PUBLIC_EVENT_LIMIT
abbrev pub public_event_limit : ℕ
public_event_limit = 50

abbrev is_kind_char : ℕ → Bool
is_kind_char c = is_lower c || is_digit c || c == b'_'

abbrev pub matches_kind : List ℕ → Bool
matches_kind [] = false
matches_kind (c ∷ cs) = is_lower c && at_most is_kind_char 63 cs

-- _EVENT_KIND_RE.match(kind)
unfoldable pub is_event_kind : String → Bool
unfolding codes at_most
is_event_kind kind = matches_kind (codes kind)

abbrev as_object : Option Fields → Option Json
as_object none = none
as_object (some d) = some (obj d)

unfoldable pub record_event : Conn → String → String → Option Fields → Exec Db (Unit {0})
record_event conn run_id kind detail = do
  raise_if (not (is_event_kind kind)) registry_error
  raise_if (is_one_of kind core_event_kinds) registry_error
  emit conn run_id kind (as_object detail)

-- ORDER BY created_at, event_id
abbrev pub is_before : Event → Event → Bool
is_before e f =
    ltb e.created_at f.created_at || ((e.created_at == f.created_at) && ltb e.event_id f.event_id)

unfoldable pub list_events : String → Db → List Event
list_events run_id db = sort_by is_before (select (λ e. str_eq e.run_id run_id) db.events)

abbrev pub is_public_event : String → Event → Bool
is_public_event run_id e = str_eq e.run_id run_id && is_one_of e.kind public_event_kinds

-- ORDER BY created_at DESC, event_id DESC LIMIT 50, and the oldest first again.
unfoldable pub recent_events : String → Db → List Event
recent_events run_id db = sort_by is_before (
    take public_event_limit
      (sort_by (λ e f. is_before f e) (select (is_public_event run_id) db.events)))

-- The kind and the time of each, and nothing else.
unfoldable pub public_events : String → Db → List (String × ℕ)
unfolding recent_events
public_events run_id db = map (λ e. (e.kind, e.created_at)) (recent_events run_id db)
