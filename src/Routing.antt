-- ===== src/Routing.antt =====
-- routing/: calls of the routing provider.
pub mod Quota
