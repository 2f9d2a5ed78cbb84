-- ===== src/Heuristic/Prune.antt =====
-- `_prune_tracked_ips` of threat_detection/heuristic.py.
use smart_ids.Base.{
  string_eq, ◌-◌, ◌≡◌, Bool, ◌&&◌, List, [], ◌∷◌, String, length, is_empty, take, sort_by,
  if◌then◌else◌,
}
use smart_ids.Dict.{keys, contains, union, IsDistinct, get_or, pop}
use smart_ids.Packet.{Time}
use smart_ids.Window.{trim_at}
use smart_ids.Heuristic.{HeuristicDetector, port_time, own_time}

-- A `for` loop over a set visits its elements once each, in an order that Python does not fix.
pub record SetOrder : Type 0 where
  pub arrange : List String → List String
  pub arrange_contains : (x : String) (xs : List String) → contains x (arrange xs) ≡ contains x xs
  pub arrange_length : (xs : List String) → length (arrange xs) ≡ length xs
  pub arrange_distinct : (xs : List String) → IsDistinct xs → IsDistinct (arrange xs)

-- `set(self._src_packet_times) | set(self._src_recent_dst_ports) | set(self._src_syn_only_times)`
unfoldable pub tracked_ips : HeuristicDetector → List String
tracked_ips d =
    union (union (keys d.src_packet_times) (keys d.src_recent_dst_ports))
      (keys d.src_syn_only_times)

-- The four `pop` calls for one address.
unfoldable pub forget : HeuristicDetector → String → HeuristicDetector
forget d src_ip = record d {
  src_packet_times = pop d.src_packet_times src_ip;
  src_recent_dst_ports = pop d.src_recent_dst_ports src_ip;
  src_syn_only_times = pop d.src_syn_only_times src_ip;
  last_seen = pop d.last_seen src_ip;
}

-- The three trimming loops for one address.
unfoldable pub trim_ip : HeuristicDetector → Time → String → HeuristicDetector
trim_ip d now src_ip = record d {
  src_packet_times = trim_at own_time (now - d.burst_window) src_ip d.src_packet_times;
  src_recent_dst_ports =
      trim_at port_time (now - d.port_sweep_window) src_ip d.src_recent_dst_ports;
  src_syn_only_times = trim_at own_time (now - d.syn_window) src_ip d.src_syn_only_times;
}

-- `not packet_times and not recent_ports and not syn_times`, where a missing bucket is `None`
unfoldable pub is_idle : HeuristicDetector → String → Bool
unfolding get_or
is_idle d src_ip =
    is_empty (get_or d.src_packet_times src_ip [])
    && is_empty (get_or d.src_recent_dst_ports src_ip [])
    && is_empty (get_or d.src_syn_only_times src_ip [])

-- The body of the first `for` loop.
unfoldable pub sweep_ip : Time → HeuristicDetector → String → HeuristicDetector
unfolding trim_ip is_idle forget
sweep_ip now d src_ip =
    let trimmed = trim_ip d now src_ip in
    if is_idle trimmed src_ip then forget trimmed src_ip else trimmed

unfoldable pub sweep : Time → HeuristicDetector → List String → HeuristicDetector
unfolding sweep_ip
sweep now d [] = d
sweep now d (src_ip ∷ rest) = sweep now (sweep_ip now d src_ip) rest

-- The second `for` loop.
unfoldable pub forget_all : HeuristicDetector → List String → HeuristicDetector
unfolding forget
forget_all d [] = d
forget_all d (src_ip ∷ rest) = forget_all (forget d src_ip) rest

module _ (order : SetOrder) where
  -- The addresses that go when more than `max_tracked_ips` are tracked: the longest unseen first.
  unfoldable pub overflow_ips : HeuristicDetector → List String
  unfolding tracked_ips get_or
  overflow_ips d =
      let tracked = order.arrange (tracked_ips d) in
      take (length tracked - d.max_tracked_ips)
        (sort_by (λ src_ip. get_or d.last_seen src_ip 0) tracked)

  unfoldable pub prune_tracked_ips : HeuristicDetector → Time → HeuristicDetector
  unfolding tracked_ips sweep overflow_ips forget_all
  prune_tracked_ips d now =
      let swept = sweep now d (order.arrange (tracked_ips d)) in
      forget_all swept (overflow_ips swept)
