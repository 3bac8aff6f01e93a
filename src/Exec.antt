-- ===== src/Exec.antt =====
-- Database sessions: the errors and results of a statement, and rules for invariants.
mod Defs
mod Keeps
mod Inversion
unfoldable pub use Defs.*
pub use Keeps.*
pub use Inversion.*
