-- ===== src/Tests.antt =====
-- The theorems at concrete inputs.
pub mod Data
pub mod Detection
pub mod Response
pub mod Traffic
pub mod Forwarding
pub mod Processor
pub mod Pipeline
pub mod Telemetry
pub mod Capture
pub mod Realtime
pub mod Runtime
pub mod Service
pub mod Artifacts
pub mod Registration
