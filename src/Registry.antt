-- ===== src/Registry.antt =====
-- registry.py: the run registry. The operations stand in the modules below, by the parts of that
-- file, and what they promise in the modules below those.
pub mod Record
pub mod Create
pub mod Retry
pub mod Claim
pub mod Lease
pub mod Outcome
pub mod Metadata
pub mod Retention
pub mod Events
pub mod Invariant
pub mod Sound
pub mod History
pub mod Lifecycle
pub mod Queries
