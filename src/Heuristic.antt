-- ===== src/Heuristic.antt =====
-- threat_detection/heuristic.py: the state of the detector and the three trackers.
pub mod Prune
pub mod History
pub mod Tracking
pub mod Sweeping
pub mod Capacity
pub mod Pruned
pub mod Detection
pub mod Rules
pub mod Evaluate
use smart_ids.Base.{
  nat_eq, string_eq, ◌==◌, ℕ, ◌*◌, Bool, true, false, ◌&&◌, not, Option, none, some, List, [], ◌∷◌,
  String, bit_and, if◌then◌else◌,
}
use smart_ids.Dict.{Dict, get_or, put}
use smart_ids.Packet.{Time, second}
use smart_ids.Window.{slide_at}

pub record HeuristicDecision : Type 0 where
  pub suspicious : Bool
  pub reason : String
  pub score : ℕ

pub record HeuristicDetector : Type 0 where
  pub enabled : Bool
  pub burst_window : Time
  pub burst_packet_threshold : ℕ
  pub port_sweep_window : Time
  pub port_sweep_unique_ports_threshold : ℕ
  pub syn_window : Time
  pub syn_only_threshold : ℕ
  pub sensitive_ports : List ℕ
  pub src_packet_times : Dict String (List Time)
  pub src_recent_dst_ports : Dict String (List (Time × ℕ))
  pub src_syn_only_times : Dict String (List Time)
  pub last_seen : Dict String Time
  pub max_tracked_ips : ℕ
  pub prune_interval : Time
  pub last_pruned_at : Option Time

-- `__init__`; the two limits come from `_positive_int`, the second in seconds.
unfoldable pub init : ℕ → ℕ → HeuristicDetector
init max_tracked_ips prune_interval_seconds = record {
  enabled = true;
  burst_window = 2 * second;
  burst_packet_threshold = 40;
  port_sweep_window = 5 * second;
  port_sweep_unique_ports_threshold = 15;
  syn_window = 3 * second;
  syn_only_threshold = 20;
  sensitive_ports = 21 ∷ 22 ∷ 23 ∷ 25 ∷ 53 ∷ 80 ∷ 110 ∷ 135 ∷ 139 ∷ 143 ∷ 443 ∷ 445 ∷ 3389 ∷ [];
  src_packet_times = [];
  src_recent_dst_ports = [];
  src_syn_only_times = [];
  last_seen = [];
  max_tracked_ips = max_tracked_ips;
  prune_interval = prune_interval_seconds * second;
  last_pruned_at = none;
}

abbrev pub port_time : Time × ℕ → Time
port_time (t, port) = t

abbrev pub own_time : Time → Time
own_time t = t

-- `_append_time`
unfoldable pub append_time : HeuristicDetector → String → Time → HeuristicDetector
append_time d src_ip timestamp = record d {
  src_packet_times = slide_at own_time d.burst_window src_ip timestamp d.src_packet_times;
  last_seen = put d.last_seen src_ip timestamp;
}

-- `_append_dst_port`
unfoldable pub append_dst_port : HeuristicDetector → String → Option ℕ → Time → HeuristicDetector
append_dst_port d src_ip none timestamp = d
append_dst_port d src_ip (some port) timestamp = record d {
  src_recent_dst_ports =
      slide_at port_time d.port_sweep_window src_ip (timestamp, port) d.src_recent_dst_ports;
  last_seen = put d.last_seen src_ip timestamp;
}

-- `flags & 0x02` is set and `flags & 0x10` is not
unfoldable pub syn_only : Option ℕ → Bool
syn_only none = false
syn_only (some flags) = not (bit_and flags 0x02 == 0) && not (not (bit_and flags 0x10 == 0))

-- `_append_syn_only`
unfoldable pub append_syn_only : HeuristicDetector → String → Option ℕ → Time → HeuristicDetector
unfolding syn_only
append_syn_only d src_ip tcp_flags timestamp =
    if syn_only tcp_flags
    then record d {
      src_syn_only_times = slide_at own_time d.syn_window src_ip timestamp d.src_syn_only_times;
      last_seen = put d.last_seen src_ip timestamp;
    }
    else d
