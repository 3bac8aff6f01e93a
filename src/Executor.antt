-- ===== src/Executor.antt =====
-- executor/: one process that claims a run, executes its graph and records the outcome.
pub mod Progress
pub mod Failure
pub mod Stream
pub mod Drive
pub mod Run
