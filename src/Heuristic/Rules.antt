-- ===== src/Heuristic/Rules.antt =====
-- The rules of `evaluate_packet` of threat_detection/heuristic.py, over runs of the detector.
use smart_ids.Base.{
  string_eq, ℕ, ◌≤◌, ◌-◌, ◌*◌, ◌&&◌, ◌||◌, ◌≡◌, refl, ap, true, List, [], ◌∷◌, ◌++◌, String, arith,
  length, leb, filter,
}
use smart_ids.Dict.{get_or, union}
use smart_ids.Packet.{PacketData, Time, second}
use smart_ids.Window.Laws.{is_recent, IsWindow-nil}
use smart_ids.Heuristic.{HeuristicDetector, own_time, init}
use smart_ids.Heuristic.Prune.{SetOrder, tracked_ips}
use smart_ids.Heuristic.Evaluate.{Findings, findings, weigh, decide_on, observe, evaluate_packet}
use smart_ids.Heuristic.History.{time_entry, entries, sources}
use smart_ids.Heuristic.Pruned.{SameSettings, SameSettings-trans}
use smart_ids.Heuristic.Detection.{Follows, observe-Follows, settings-observe, times-observe}

-- A detector that has evaluated the packets `ps`, in the order of their times, the last at `now`,
-- from never more than `max_tracked_ips` sources.
pub data Run (order : SetOrder) (max_ips interval : ℕ)
    : HeuristicDetector → List PacketData → Time → Type 0 where
  start : Run order max_ips interval (init max_ips interval) [] 0
  next :
      {d : HeuristicDetector} {ps : List PacketData} {now : Time}
      → Run order max_ips interval d ps now
      → (p : PacketData) → now ≤ p.timestamp
      → length (sources (ps ++ p ∷ [])) ≤ max_ips
      → Run order max_ips interval (evaluate_packet order d p).0 (ps ++ p ∷ []) p.timestamp

record Reached (max_ips interval : ℕ) (d : HeuristicDetector) (ps : List PacketData) (now : Time)
    : Type 0 where
  follows : Follows now d ps
  settings : SameSettings (init max_ips interval) d

init-Reached : (max_ips interval : ℕ) → Reached max_ips interval (init max_ips interval) [] 0
unfolding init entries tracked_ips get_or sources union
init-Reached max_ips interval = record {
  follows = record {
    tracks = record {
      times = λ k. IsWindow-nil own_time _;
      ports = λ k. IsWindow-nil _ _;
      syns = λ k. IsWindow-nil own_time _;
    };
    distinct = tt;
    known = λ j h. h;
  };
  settings = ground arith;
}

max-init : (max_ips interval : ℕ) → (init max_ips interval).max_tracked_ips ≡ max_ips
unfolding init
max-init max_ips interval = refl

evaluate-observe :
    (order : SetOrder) (d : HeuristicDetector) (p : PacketData)
    → d.enabled ≡ true
    → evaluate_packet order d p
      ≡ (observe order d p, decide_on (weigh (findings (observe order d p) p)))
unfolding evaluate_packet
evaluate-observe order d p h = ground arith

-- How many of the packets came from `ip` at or after `cutoff`.
abbrev pub recent_packets : List PacketData → String → Time → ℕ
recent_packets ps ip cutoff = length (filter (is_recent own_time cutoff) (entries time_entry ps ip))

module _ (order : SetOrder) {max_ips interval : ℕ} where
  Run-Reached :
      {d : HeuristicDetector} {ps : List PacketData} {now : Time}
      → Run order max_ips interval d ps now
      → Reached max_ips interval d ps now
  unfolding init
  Run-Reached start = init-Reached max_ips interval
  Run-Reached (next {d = d} {ps = ps} {now = now} run p h few) =
      let r = Run-Reached run in
      let few' : length (sources (ps ++ p ∷ [])) ≤ d.max_tracked_ips =
        omega (arith, r.settings.max_tracked_ips) in
      rw (evaluate-observe order d p (r.settings.enabled)) (record {
        follows = observe-Follows order r.follows p h few';
        settings = SameSettings-trans r.settings (settings-observe order r.follows p h few');
      })

  -- The burst rule fires on a packet exactly when its source has sent at least 40 packets, this one
  -- included, in the two seconds up to it: no packet is lost by trimming or pruning, in packets that
  -- come in the order of time from at most `max_tracked_ips` sources.
  pub scan_burst_exact :
      {d : HeuristicDetector} {ps : List PacketData} {now : Time}
      → Run order max_ips interval d ps now
      → (p : PacketData) → now ≤ p.timestamp
      → length (sources (ps ++ p ∷ [])) ≤ max_ips
      → (findings (observe order d p) p).scan_burst
        ≡ leb 40 (recent_packets (ps ++ p ∷ []) p.src_ip (p.timestamp - 2 * second))
  unfolding findings init
  scan_burst_exact {d} {ps} {now} run p h few =
      let r = Run-Reached run in
      let few' : length (sources (ps ++ p ∷ [])) ≤ d.max_tracked_ips =
        omega (arith, r.settings.max_tracked_ips) in
      let s = settings-observe order r.follows p h few' in
      rw
        (
          times-observe order r.follows p h few',
          s.burst_packet_threshold,
          r.settings.burst_packet_threshold,
        )
        (ap (λ w. leb 40 (recent_packets (ps ++ p ∷ []) p.src_ip (p.timestamp - w)))
          r.settings.burst_window)

-- The verdict of an enabled detector: suspicious exactly when some rule fires, but for a packet that
-- is only tiny, or only goes to a sensitive port.
pub suspicious_exact :
    (order : SetOrder) (d : HeuristicDetector) (p : PacketData)
    → d.enabled ≡ true
    → (evaluate_packet order d p).1.suspicious ≡ (
        let f = findings (observe order d p) p in
        f.no_transport_ports
        || f.invalid_packet_size
        || f.scan_burst
        || f.port_sweep
        || f.syn_only_surge
        || (f.tiny_packet && f.sensitive_service_probe))
unfolding decide_on weigh
suspicious_exact order d p h =
    rw (evaluate-observe order d p h) (verdict (findings (observe order d p) p))
  where
    verdict :
        (f : Findings)
        → (decide_on (weigh f)).suspicious ≡ (
            f.no_transport_ports
            || f.invalid_packet_size
            || f.scan_burst
            || f.port_sweep
            || f.syn_only_surge
            || (f.tiny_packet && f.sensitive_service_probe))
    verdict f = ground arith
