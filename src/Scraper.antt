-- ===== src/Scraper.antt =====
-- scraper/: the worker's side of the queue.
pub mod DenialPolicy
pub mod RateLimit
pub mod Transport
pub mod Worker
