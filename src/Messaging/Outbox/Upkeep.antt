-- ===== src/Messaging/Outbox/Upkeep.antt =====
-- messaging/outbox.py: stranded messages, the depth of the outbox and the removal of delivered rows.
use workflow_runtime_core.Base.{
  ℕ, ◌+◌, ◌*◌, ◌-◌, String, Bool, false, not, ◌&&◌, Option, none, some, List, [], ◌∷◌, map, ltb,
  leb, str_eq, or_else, length, take, select, update, delete, sort_by, min, if◌then◌else◌,
}
use workflow_runtime_core.Exec.{ok, Exec, ◌>>◌}
use workflow_runtime_core.Db.{Db, Conn, OutboxRecord, OutboxStatus, microseconds_a_day}
use workflow_runtime_core.Messaging.Outbox.{
  is_publishing, is_delivered, require_messaging, is_among,
}

abbrev pub has_lapsed : Option ℕ → ℕ → Bool
has_lapsed none now = false
has_lapsed (some expires) now = leb expires now

abbrev pub is_stranded : Conn → OutboxRecord → Bool
is_stranded conn m = is_publishing m.status && has_lapsed m.lease_expires_at conn.now

abbrev pub reschedule : Conn → OutboxRecord → OutboxRecord
reschedule conn m = record m {
  status = OutboxStatus.failed;
  lease_owner = none;
  lease_expires_at = none;
  last_error = some (or_else m.last_error "publisher lease expired");
  next_attempt_at = conn.now;
}

abbrev expiry_order : OutboxRecord → OutboxRecord → Bool
expiry_order m n = leb (or_else m.lease_expires_at 0) (or_else n.lease_expires_at 0)

unfoldable pub stranded : Conn → (OutboxRecord → Bool) → ℕ → List OutboxRecord → List OutboxRecord
stranded conn locked limit rows =
    take limit (sort_by expiry_order (select (λ m. is_stranded conn m && not (locked m)) rows))

unfoldable pub reconcile_stale : Conn → (OutboxRecord → Bool) → ℕ → Exec Db (List String)
reconcile_stale conn locked limit = do
  require_messaging
  λ db.
      let chosen = stranded conn locked limit db.outbox in
      (
        ok (map (λ m. m.outbox_id) (select (is_among chosen) db.outbox)),
        record db { outbox = update (is_among chosen) (reschedule conn) db.outbox },
      )

-- status IN ('pending', 'failed', 'publishing')
abbrev pub is_owed : String → OutboxRecord → Bool
is_owed namespace m = str_eq m.service_namespace namespace && not (is_delivered m.status)

unfoldable pub pending_depth : String → Exec Db ℕ
pending_depth namespace = do
  require_messaging
  λ db. (ok (length (select (is_owed namespace) db.outbox)), db)

-- min(created_at)
oldest : List OutboxRecord → Option ℕ
oldest [] = none
oldest (m ∷ rows) = elim (oldest rows) [
  | none ↦ some m.created_at
  | some t ↦ some (min m.created_at t)
]

-- The age in microseconds: now() - min(created_at).
abbrev age_of : Conn → Option ℕ → Option ℕ
age_of conn none = none
age_of conn (some t) = some (conn.now - t)

unfoldable pub oldest_pending_age_seconds : Conn → String → Exec Db (Option ℕ)
unfolding oldest
oldest_pending_age_seconds conn namespace = do
  require_messaging
  λ db. (ok (age_of conn (oldest (select (is_owed namespace) db.outbox))), db)

abbrev delivered_before : Option ℕ → ℕ → ℕ → Bool
delivered_before none days now = false
delivered_before (some t) days now = ltb (t + days * microseconds_a_day) now

abbrev pub is_purgeable : Conn → String → ℕ → OutboxRecord → Bool
is_purgeable conn namespace days m =
    str_eq m.service_namespace namespace
    && is_delivered m.status
    && delivered_before m.delivered_at days conn.now

unfoldable pub purge_delivered : Conn → String → ℕ → Bool → Exec Db ℕ
purge_delivered conn namespace days dry_run = do
  require_messaging
  λ db.
      let gone = is_purgeable conn namespace days in
      (
        ok (length (select gone db.outbox)),
        if dry_run then db else record db { outbox = delete gone db.outbox },
      )
