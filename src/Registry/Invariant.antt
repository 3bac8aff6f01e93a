-- ===== src/Registry/Invariant.antt =====
-- What holds of the tables runs and run_events between two operations of registry.py.
mod Defs
mod Rows
mod Update
pub use Defs.*
pub use Rows.*
pub use Update.*
