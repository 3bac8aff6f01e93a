-- ===== src/Messaging.antt =====
-- The messaging of messaging/: outbox, launches, inbox and the egress pump.
pub mod Backoff
pub mod Outbox
pub mod Launches
pub mod Egress
pub mod Envelope
pub mod Inbox
pub mod Receipts
