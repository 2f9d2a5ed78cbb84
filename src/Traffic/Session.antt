-- ===== src/Traffic/Session.antt =====
-- traffic_engine/session_builder/traffic_session.py and session_key.py.
pub mod Counts
use smart_ids.Base.{
  Eq, nat_eq, string_eq, option_eq, ◌==◌, ℕ, ◌+◌, ◌-◌, ◌≡◌, ◌↔◌, Bool, true, false, ◌&&◌, ◌||◌, not,
  Option, none, some, List, [], ◌∷◌, ◌++◌, String, bit_and, ltb, min, if◌then◌else◌, arith, eq_iff,
}
use smart_ids.Packet.{PacketData, Time}
use smart_ids.Traffic.Stats.{Floats, RunningStats}
use smart_ids.Traffic.Stats

pub record SessionKey : Type 0 where
  pub src_ip : String
  pub dst_ip : String
  pub protocol : ℕ
  pub src_port : Option ℕ
  pub dst_port : Option ℕ

-- `SessionKey.from_packet`
unfoldable pub from_packet : PacketData → SessionKey
from_packet packet = record {
  src_ip = packet.src_ip;
  dst_ip = packet.dst_ip;
  protocol = packet.protocol;
  src_port = packet.src_port;
  dst_port = packet.dst_port;
}

abbrev pub key_beq : SessionKey → SessionKey → Bool
key_beq a b =
    a.src_ip == b.src_ip
    && a.dst_ip == b.dst_ip
    && a.protocol == b.protocol
    && a.src_port == b.src_port
    && a.dst_port == b.dst_port

pub key_beq_iff : (a b : SessionKey) → (key_beq a b ≡ true) ↔ (a ≡ b)
key_beq_iff a b = ground (arith, eq_iff a.src_ip b.src_ip, eq_iff a.dst_ip b.dst_ip)

instance abbrev pub key_eq : Eq SessionKey
key_eq = record { beq = key_beq; beq_iff = key_beq_iff }

pub record FlagCounts : Type 0 where
  pub fin : ℕ
  pub syn : ℕ
  pub rst : ℕ
  pub psh : ℕ
  pub ack : ℕ
  pub urg : ℕ

pub record TrafficSession (F : Type 0) : Type 0 where
  pub src_ip : String
  pub dst_ip : String
  pub protocol : ℕ
  pub start_time : Time
  pub last_seen : Time
  pub src_port : Option ℕ
  pub dst_port : Option ℕ
  pub packet_count : ℕ
  pub total_bytes : ℕ
  pub packet_lengths : List ℕ
  pub fwd_packet_lengths : List ℕ
  pub packet_timestamps : List Time
  pub fwd_packet_timestamps : List Time
  pub packet_length_stats : RunningStats F
  pub fwd_packet_length_stats : RunningStats F
  pub fwd_packet_count : ℕ
  pub fwd_total_bytes : ℕ
  pub flag_counts : FlagCounts
  pub fwd_header_length : ℕ
  pub init_win_bytes_forward : Option ℕ
  pub act_data_pkt_fwd : ℕ
  pub min_seg_size_forward : Option ℕ
  pub finished : Bool

-- `flags & mask` is not 0
unfoldable pub has_flag : ℕ → ℕ → Bool
has_flag flags mask = not (bit_and flags mask == 0)

abbrev pub or_zero : Option ℕ → ℕ
or_zero none = 0
or_zero (some n) = n

-- `self.init_win_bytes_forward`, set once
abbrev pub first_window : Option ℕ → Option ℕ → Option ℕ
first_window none window = window
first_window (some w) window = some w

-- Whether the payload has a size above 0.
abbrev pub has_payload : Option ℕ → Bool
has_payload none = false
has_payload (some n) = ltb 0 n

-- `min_seg_size_forward` after a segment of that size
unfoldable pub smaller_segment : Option ℕ → Option ℕ → Option ℕ
smaller_segment old none = old
smaller_segment none (some n) = if ltb 0 n then some n else none
smaller_segment (some m) (some n) = if ltb 0 n then some (min m n) else some m

abbrev bump : Bool → ℕ → ℕ
bump b n = if b then n + 1 else n

module _ {F : Type 0} where
  unfoldable pub is_forward : TrafficSession F → PacketData → Bool
  is_forward s packet = packet.src_ip == s.src_ip && packet.dst_ip == s.dst_ip

  -- `_update_tcp_flags`
  unfoldable pub update_tcp_flags : TrafficSession F → PacketData → TrafficSession F
  unfolding has_flag
  update_tcp_flags s packet = elim packet.tcp_flags [
    | none ↦ s
    | some flags ↦ record s {
      flag_counts = record {
        fin = bump (has_flag flags 0x01) s.flag_counts.fin;
        syn = bump (has_flag flags 0x02) s.flag_counts.syn;
        rst = bump (has_flag flags 0x04) s.flag_counts.rst;
        psh = bump (has_flag flags 0x08) s.flag_counts.psh;
        ack = bump (has_flag flags 0x10) s.flag_counts.ack;
        urg = bump (has_flag flags 0x20) s.flag_counts.urg;
      };
      finished = has_flag flags 0x01 || has_flag flags 0x04 || s.finished;
    }
  ]

  unfoldable pub duration : TrafficSession F → Time
  duration s = s.last_seen - s.start_time

  -- `age`
  unfoldable pub age : TrafficSession F → Time
  unfolding duration
  age s = duration s

  unfoldable pub is_finished : TrafficSession F → Bool
  is_finished s = s.finished

module _ {F : Type 0} ⦃f : Floats F⦄ where
  -- A session with no packet yet.
  unfoldable pub new_session : PacketData → TrafficSession F
  unfolding Stats.init
  new_session packet = record {
    src_ip = packet.src_ip;
    dst_ip = packet.dst_ip;
    protocol = packet.protocol;
    start_time = packet.timestamp;
    last_seen = packet.timestamp;
    src_port = packet.src_port;
    dst_port = packet.dst_port;
    packet_count = 0;
    total_bytes = 0;
    packet_lengths = [];
    fwd_packet_lengths = [];
    packet_timestamps = [];
    fwd_packet_timestamps = [];
    packet_length_stats = Stats.init;
    fwd_packet_length_stats = Stats.init;
    fwd_packet_count = 0;
    fwd_total_bytes = 0;
    flag_counts = record { fin = 0; syn = 0; rst = 0; psh = 0; ack = 0; urg = 0 };
    fwd_header_length = 0;
    init_win_bytes_forward = none;
    act_data_pkt_fwd = 0;
    min_seg_size_forward = none;
    finished = false;
  }

  -- The part of `update` that every packet takes.
  unfoldable pub update_totals : TrafficSession F → PacketData → TrafficSession F
  unfolding Stats.update
  update_totals s packet = record s {
    packet_count = s.packet_count + 1;
    total_bytes = s.total_bytes + packet.packet_size;
    last_seen = packet.timestamp;
    packet_lengths = s.packet_lengths ++ packet.packet_size ∷ [];
    packet_timestamps = s.packet_timestamps ++ packet.timestamp ∷ [];
    packet_length_stats = Stats.update s.packet_length_stats (f.of_nat packet.packet_size);
  }

  -- The part under `if is_forward`.
  unfoldable pub update_forward : TrafficSession F → PacketData → TrafficSession F
  unfolding Stats.update smaller_segment
  update_forward s packet = record s {
    fwd_packet_count = s.fwd_packet_count + 1;
    fwd_total_bytes = s.fwd_total_bytes + packet.packet_size;
    fwd_packet_lengths = s.fwd_packet_lengths ++ packet.packet_size ∷ [];
    fwd_packet_timestamps = s.fwd_packet_timestamps ++ packet.timestamp ∷ [];
    fwd_packet_length_stats = Stats.update s.fwd_packet_length_stats (f.of_nat packet.packet_size);
    fwd_header_length = s.fwd_header_length + or_zero packet.transport_header_length;
    init_win_bytes_forward = first_window s.init_win_bytes_forward packet.tcp_window_size;
    act_data_pkt_fwd = bump (has_payload packet.payload_size) s.act_data_pkt_fwd;
    min_seg_size_forward = smaller_segment s.min_seg_size_forward packet.payload_size;
  }

  unfoldable pub update : TrafficSession F → PacketData → TrafficSession F
  unfolding update_totals is_forward update_forward update_tcp_flags
  update s packet =
      let totals = update_totals s packet in
      update_tcp_flags (if is_forward totals packet then update_forward totals packet else totals)
        packet
