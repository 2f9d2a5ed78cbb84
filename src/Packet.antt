-- ===== src/Packet.antt =====
-- packet_capture/packet_models/packet_data.py, and the clock of the engine.
use smart_ids.Base.{ℕ, Option, String}

-- A time is a whole number of microseconds since the epoch; the source has float seconds.
abbrev pub Time : Type 0
Time = ℕ

-- One second.
abbrev pub second : Time
second = 1_000_000

pub record PacketData : Type 0 where
  pub src_ip : String
  pub dst_ip : String
  pub protocol : ℕ
  pub packet_size : ℕ
  pub timestamp : Time
  pub src_port : Option ℕ
  pub dst_port : Option ℕ
  pub tcp_flags : Option ℕ
  pub tcp_window_size : Option ℕ
  pub tcp_header_length : Option ℕ
  pub transport_header_length : Option ℕ
  pub payload_size : Option ℕ
