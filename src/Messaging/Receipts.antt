-- ===== src/Messaging/Receipts.antt =====
-- messaging/receipts.py and messaging/_receipt_sql.py: external effects with fencing and an
-- append-only record of the transitions.
pub mod Transition
pub mod Sql
pub mod Ops
pub mod Settle
pub mod Review
pub mod Steps
pub mod Quiet
pub mod Keeps
pub mod Rows
pub mod Log
pub mod Retired
pub mod Fenced
pub mod Granted
pub mod Effect
pub mod Lifecycle
