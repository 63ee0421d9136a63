-- ===== src/Workflow.antt =====
-- workflow/: the persistent jobs of the pipeline.
pub mod Jobs
pub mod Leases
pub mod Invariant
pub mod Reachable
pub mod Acknowledged
pub mod Idempotent
pub mod Claimed
pub mod Kept
pub mod Ended
mod Tests
