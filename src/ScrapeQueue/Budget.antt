-- ===== src/ScrapeQueue/Budget.antt =====
-- scrape_queue/budget.py: pacing of the requests to a portal, and the allowance of the proxy.
pub mod Calendar
pub mod Signed
pub mod Records
pub mod Permits
pub mod Outcomes
pub mod Accounts
pub mod Rows
pub mod Limits
pub mod Kept
pub mod Settled
pub mod Counted
pub mod Steps
pub mod Frames
pub mod Pacing
pub mod Judged
pub mod Retried
pub mod Midnight
mod Samples
mod Tests
