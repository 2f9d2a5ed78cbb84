-- ===== src/Runtime.antt =====
-- ml/runtime
pub mod Tree
pub mod Stack
pub mod Artifacts
