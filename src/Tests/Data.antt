-- ===== src/Tests/Data.antt =====
-- The packets, the sets and the numbers of the tests.
use smart_ids.Base.{ℕ, ◌+◌, ◌-◌, ◌*◌, ◌/◌, refl, none, some, ltb, length}
use smart_ids.Packet.{PacketData, Time, second}
use smart_ids.Heuristic.Prune.{SetOrder}
use smart_ids.Traffic.Stats.{Floats}
use smart_ids.Capture.Statistics.{Statistics}
use smart_ids.Telemetry.{Rounding}

abbrev pub insertion_order : SetOrder
insertion_order = record {
  arrange = λ xs. xs;
  arrange_contains = λ x xs. refl;
  arrange_length = λ xs. refl;
  arrange_distinct = λ xs h. h;
}

-- A TCP packet with these flags at this time.
abbrev pub packet_at : Time → ℕ → PacketData
packet_at timestamp flags = record {
  src_ip = "10.0.0.7";
  dst_ip = "10.0.0.1";
  protocol = 6;
  packet_size = 60;
  timestamp = timestamp;
  src_port = some 50000;
  dst_port = some 22;
  tcp_flags = some flags;
  tcp_window_size = some 1024;
  tcp_header_length = some 20;
  transport_header_length = some 20;
  payload_size = none;
}

abbrev pub syn_packet : PacketData
syn_packet = packet_at (10 * second) 2

abbrev pub ack_packet : PacketData
ack_packet = packet_at (11 * second) 16

-- Whole numbers in place of floats.
instance abbrev pub whole_numbers : Floats ℕ
whole_numbers = record {
  of_nat = λ n. n;
  add = ◌+◌;
  sub = ◌-◌;
  mul = ◌*◌;
  div = ◌/◌;
  lt = ltb;
  sqrt = λ n. n;
}

abbrev pub statistics : Statistics ℕ
statistics = record {
  mean = λ xs. length xs;
  pstdev = λ xs. 0;
  pvariance = λ xs. 0;
  seconds = λ t. t;
}

abbrev pub rounding : Rounding ℕ
rounding = record {
  zero_float = 0;
  percent = λ size maxsize. size * 100;
  seconds_4 = λ t. t;
  milliseconds_4 = λ t. t;
}
