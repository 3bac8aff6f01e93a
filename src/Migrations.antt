-- ===== src/Migrations.antt =====
-- migrations.py: the operator's migrations and their checksum ledger.
pub mod Ledger
pub mod Apply
pub mod App
pub mod Recorded
pub mod Versions
pub mod Current
pub mod Again
