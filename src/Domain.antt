-- ===== src/Domain.antt =====
-- domain/: the rules on listings.
pub mod Commute
pub mod Costs
