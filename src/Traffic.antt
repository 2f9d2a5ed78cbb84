-- ===== src/Traffic.antt =====
-- traffic_engine/session_builder/: sessions, their keys, and the builder.
pub mod Stats
pub mod Session
pub mod Builder
