-- ===== src/Response.antt =====
-- response_engine/: the policy, the blocker, and the stores that they keep.
pub mod Policy
pub mod Commands
pub mod Firewall
pub mod Blocker
pub mod Activity
