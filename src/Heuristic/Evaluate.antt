-- ===== src/Heuristic/Evaluate.antt =====
-- `evaluate_packet` of threat_detection/heuristic.py.
use Prim.Native.String
use smart_ids.Base.{
  nat_eq, string_eq, ℕ, ◌+◌, ◌-◌, Bool, true, false, ◌&&◌, Option, none, some, List, [], ◌∷◌, ◌++◌,
  String, length, ltb, leb, if◌then◌else◌, is_empty,
}
use smart_ids.Dict.{contains, add, get_or}
use smart_ids.Packet.{PacketData, Time}
use smart_ids.Heuristic.{
  HeuristicDetector, HeuristicDecision, append_time, append_dst_port, append_syn_only,
}
use smart_ids.Heuristic.Prune.{SetOrder, prune_tracked_ips}

-- `{port for _, port in recent_ports}`
unfoldable pub unique_ports : List (Time × ℕ) → List ℕ
unique_ports [] = []
unique_ports ((t, port) ∷ rest) = add port (unique_ports rest)

abbrev pub is_none {ℓ} : {A : Type ℓ} → Option A → Bool
is_none none = true
is_none (some a) = false

-- `packet.dst_port is not None and int(packet.dst_port) in self.sensitive_ports`
unfoldable pub probes_sensitive_port : HeuristicDetector → Option ℕ → Bool
probes_sensitive_port d none = false
probes_sensitive_port d (some port) = contains port d.sensitive_ports

-- One `if` of the rules: `score += points; reasons.append(name)`.
unfoldable pub rule : Bool → ℕ → String → ℕ × List String → ℕ × List String
rule test points name (score, reasons) =
    if test then (score + points, reasons ++ name ∷ []) else (score, reasons)

-- The tests of the seven rules, in the order of the source.
pub record Findings : Type 0 where
  pub no_transport_ports : Bool
  pub invalid_packet_size : Bool
  pub tiny_packet : Bool
  pub sensitive_service_probe : Bool
  pub scan_burst : Bool
  pub port_sweep : Bool
  pub syn_only_surge : Bool

unfoldable pub findings : HeuristicDetector → PacketData → Findings
unfolding unique_ports probes_sensitive_port get_or
findings d packet = record {
  no_transport_ports = is_none packet.src_port && is_none packet.dst_port;
  invalid_packet_size = leb packet.packet_size 0;
  tiny_packet = ltb packet.packet_size 40;
  sensitive_service_probe = probes_sensitive_port d packet.dst_port;
  scan_burst = leb d.burst_packet_threshold (length (get_or d.src_packet_times packet.src_ip []));
  port_sweep =
      leb d.port_sweep_unique_ports_threshold
        (length (unique_ports (get_or d.src_recent_dst_ports packet.src_ip [])));
  syn_only_surge = leb d.syn_only_threshold (length (get_or d.src_syn_only_times packet.src_ip []));
}

unfoldable pub weigh : Findings → ℕ × List String
unfolding rule
weigh f =
    let r1 = rule f.no_transport_ports 2 "no_transport_ports" (0, []) in
    let r2 = rule f.invalid_packet_size 3 "invalid_packet_size" r1 in
    let r3 = rule f.tiny_packet 1 "tiny_packet" r2 in
    let r4 = rule f.sensitive_service_probe 1 "sensitive_service_probe" r3 in
    let r5 = rule f.scan_burst 3 "scan_burst" r4 in
    let r6 = rule f.port_sweep 3 "port_sweep" r5 in rule f.syn_only_surge 4 "syn_only_surge" r6

-- `",".join(reasons)`
unfoldable pub join_comma : List String → String
join_comma [] = ""
join_comma (x ∷ []) = x
join_comma (x ∷ y ∷ rest) = String.◌++◌ x (String.◌++◌ "," (join_comma (y ∷ rest)))

unfoldable pub decide_on : ℕ × List String → HeuristicDecision
unfolding join_comma
decide_on (score, reasons) = record {
  suspicious = leb 2 score;
  reason = if is_empty reasons then "clean" else join_comma reasons;
  score = score;
}

-- `self._last_pruned_at is None or timestamp - self._last_pruned_at >= self._prune_interval_seconds`
unfoldable pub prune_due : HeuristicDetector → Time → Bool
prune_due d timestamp = elim d.last_pruned_at [
  | none ↦ true
  | some last ↦ leb d.prune_interval (timestamp - last)
]

-- The three append calls.
unfoldable pub track : HeuristicDetector → PacketData → HeuristicDetector
unfolding append_time append_dst_port append_syn_only
track d packet =
    let d1 = append_time d packet.src_ip packet.timestamp in
    let d2 = append_dst_port d1 packet.src_ip packet.dst_port packet.timestamp in
    append_syn_only d2 packet.src_ip packet.tcp_flags packet.timestamp

module _ (order : SetOrder) where
  -- The state in which the rules are read.
  unfoldable pub observe : HeuristicDetector → PacketData → HeuristicDetector
  unfolding track prune_due
  observe d packet =
      let d' = track d packet in
      if prune_due d' packet.timestamp
      then record (prune_tracked_ips order d' packet.timestamp) {
        last_pruned_at = some packet.timestamp;
      }
      else d'

  unfoldable pub evaluate_packet :
      HeuristicDetector → PacketData → HeuristicDetector × HeuristicDecision
  unfolding observe findings weigh decide_on
  evaluate_packet d packet =
      if d.enabled
      then (let d' = observe d packet in (d', decide_on (weigh (findings d' packet))))
      else (d, record { suspicious = false; reason = "disabled"; score = 0 })
