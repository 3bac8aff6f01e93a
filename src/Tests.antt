-- ===== src/Tests.antt =====
-- Runs of the definitions on concrete databases.
mod Samples
mod Runs
mod Records
mod Messages
mod Events
mod Grants
mod Migrations
mod Receipts
mod Executor
