-- ===== src/Registry/Events/Timeline.antt =====
-- What `public_events` shows of a run.
use workflow_runtime_core.Base.{
  length-map, All-image, ℕ, ◌≤◌, String, ◌≡◌, true, arith, All, All-map, All-chosen, All-sort_by,
  take, select, length, length-sort_by, length-take-le, sort_by,
}
use workflow_runtime_core.Db.{Db}
use workflow_runtime_core.Registry.Events.{
  is_one_of, public_event_kinds, public_event_limit, is_before, is_public_event, recent_events,
  public_events,
}

-- A client gets at most fifty events of a run, and each is of a public kind.
public_events-bounded :
    (run_id : String) (db : Db)
    → (length (public_events run_id db) ≤ public_event_limit)
      × All (λ e. is_one_of e.0 public_event_kinds ≡ true) (public_events run_id db)
unfolding public_events recent_events
public_events-bounded run_id db = (
  omega (
    arith,
    length-map {B = String × ℕ} (λ e. (e.kind, e.created_at)) (recent_events run_id db),
    length-sort_by is_before (
        take public_event_limit
          (sort_by (λ e f. is_before f e) (select (is_public_event run_id) db.events))),
    length-take-le public_event_limit
        (sort_by (λ e f. is_before f e) (select (is_public_event run_id) db.events)),
  ),
  All-image {B = String × ℕ} (λ e. is_one_of e.0 public_event_kinds ≡ true)
      (λ e. (e.kind, e.created_at)) _
      (All-sort_by (λ e. is_one_of e.kind public_event_kinds ≡ true) is_before _
        (All-map _ _ _ (λ e h. let p = h.0 in ground (arith, p))
          (All-chosen (λ e f. is_before f e) (is_public_event run_id) public_event_limit
            db.events))),
)
