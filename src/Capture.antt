-- ===== src/Capture.antt =====
-- packet_capture/utils and feature_engine: what is captured, and what is computed and kept of it.
pub mod Filters
pub mod Features
pub mod Statistics
pub mod Extractor
