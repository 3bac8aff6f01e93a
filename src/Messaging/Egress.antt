-- ===== src/Messaging/Egress.antt =====
-- messaging/egress.py: the pump that claims messages, publishes them and settles each.
pub mod Counts
use workflow_runtime_core.Base.{ℕ, ◌+◌, String, Bool, List, [], ◌∷◌, ◌==◌, length, if◌then◌else◌}
use workflow_runtime_core.Exec.{Exec, runtime_error, raise, ◌>>=◌, ◌>>◌, pure}
use workflow_runtime_core.Db.{Db, Conn, OutboxRecord}
use workflow_runtime_core.Messaging.Outbox.{claim_due, mark_delivered, mark_failed}

-- What `publish` does with a message: it returns, raises a `PublishError`, or raises something
-- else, which leaves the pump.
pub data Publication : Type 0 where
  confirmed : Publication
  refused : String → Publication
  broken : Publication

pub record DrainResult : Type 0 where
  pub claimed : ℕ
  pub delivered : ℕ
  pub failed : ℕ

abbrev pub idle : DrainResult → Bool
idle r = r.claimed == 0

abbrev pub count_delivered : Bool → DrainResult → DrainResult
count_delivered held r = if held then record r { delivered = r.delivered + 1 } else r

abbrev pub count_failed : DrainResult → DrainResult
count_failed r = record r { failed = r.failed + 1 }

module _ (conn : Conn) (publish : OutboxRecord → Publication) (owner : String) where
  -- The statement about one message after its publication.
  unfoldable pub settle_message : OutboxRecord → Publication → DrainResult → Exec Db DrainResult
  settle_message m (refused error) r = do
    mark_failed conn m.outbox_id owner error m.attempts
    pure (count_failed r)
  settle_message m confirmed r = do
    held ← mark_delivered conn m.outbox_id owner
    pure (count_delivered held r)
  settle_message m broken r = raise runtime_error

  -- The loop over the claimed messages.
  unfoldable pub settle_all : List OutboxRecord → DrainResult → Exec Db DrainResult
  settle_all [] r = pure r
  settle_all (m ∷ messages) r = do r' ← settle_message m (publish m) r; settle_all messages r'

  unfoldable pub drain_once : (OutboxRecord → Bool) → String → ℕ → ℕ → Exec Db DrainResult
  drain_once locked namespace lease_seconds limit = do
    messages ← claim_due conn locked namespace owner lease_seconds limit
    settle_all messages (record { claimed = length messages; delivered = 0; failed = 0 })
