-- ===== src/ScrapeQueue.antt =====
-- scrape_queue/: the coordinator's queue of scrape tasks.
pub mod Contracts
pub mod Captures
pub mod Records
pub mod Lease
pub mod Finish
pub mod Registration
pub mod Reaping
pub mod Claim
pub mod Completion
pub mod Insertion
pub mod Inserted
pub mod Outcome
pub mod Canary
pub mod Accepted
pub mod Granted
pub mod Invariant
pub mod Reachable
pub mod Honoured
pub mod Lifetime
pub mod Terminal
pub mod Finished
pub mod Selection
pub mod Retry
pub mod Exclusion
pub mod Api
pub mod Budget
mod Samples
mod Tests
