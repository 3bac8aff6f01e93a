-- ===== src/Db.antt =====
-- The database as the migrations of migrations.py shape it, and the statements on its tables
-- that the registry and the messaging modules share.
mod Rows
mod Runs
mod Laws
unfoldable pub use Rows.*
unfoldable pub use Runs.*
pub use Laws.*
