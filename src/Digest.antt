-- ===== src/Digest.antt =====
-- digest/: the delivery of the daily report.
pub mod Outbox
