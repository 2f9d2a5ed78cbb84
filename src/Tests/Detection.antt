-- ===== src/Tests/Detection.antt =====
-- The detector of threat_detection/heuristic.py.
use smart_ids.Base.{
  string_eq, ◌-◌, ◌*◌, ◌≤◌, ◌≡◌, ◌&&◌, ◌||◌, refl, true, [], ◌∷◌, length, leb, arith,
}
use smart_ids.Dict.{add}
use smart_ids.Packet.{second}
use smart_ids.Heuristic.{HeuristicDetector, init}
use smart_ids.Heuristic.Evaluate.{findings, observe, evaluate_packet}
use smart_ids.Heuristic.History.{sources}
use smart_ids.Heuristic.Rules.{Run, recent_packets, scan_burst_exact, suspicious_exact}
use smart_ids.Tests.Data.{insertion_order, syn_packet, ack_packet}

one_source : length (sources (syn_packet ∷ [])) ≤ 2000
unfolding sources add
one_source = omega arith

same_source : length (sources (syn_packet ∷ ack_packet ∷ [])) ≤ 2000
unfolding sources add
same_source = omega arith

abbrev detector : HeuristicDetector
detector = (evaluate_packet insertion_order (init 2000 30) syn_packet).0

detector-Run : Run insertion_order 2000 30 detector (syn_packet ∷ []) (10 * second)
detector-Run = Run.next Run.start syn_packet (omega arith) one_source

scan_burst_exact_example :
    (findings (observe insertion_order detector ack_packet) ack_packet).scan_burst
    ≡ leb 40 (
        recent_packets
          (syn_packet ∷ ack_packet ∷ [])
          "10.0.0.7"
          (ack_packet.timestamp - 2 * second))
scan_burst_exact_example =
    scan_burst_exact insertion_order detector-Run ack_packet (omega arith) same_source

enabled : (init 2000 30).enabled ≡ true
unfolding init
enabled = refl

suspicious_exact_example :
    (evaluate_packet insertion_order (init 2000 30) syn_packet).1.suspicious ≡ (
      let f = findings (observe insertion_order (init 2000 30) syn_packet) syn_packet in
      f.no_transport_ports
      || f.invalid_packet_size
      || f.scan_burst
      || f.port_sweep
      || f.syn_only_surge
      || (f.tiny_packet && f.sensitive_service_probe))
suspicious_exact_example = suspicious_exact insertion_order (init 2000 30) syn_packet enabled
