-- ===== src/Registry/Sound.antt =====
-- Every operation of registry.py keeps the constraints on runs, its leases and its events.
pub mod Claim
pub mod Lease
pub mod Outcome
pub mod Create
pub mod Metadata
pub mod Retention
