-- ===== src/Forwarding.antt =====
-- packet_capture/forwarding
pub mod Spill
pub mod Publisher
pub mod Contracts
