-- ===== src/Heuristic/Detection.antt =====
-- What `evaluate_packet` of threat_detection/heuristic.py finds, against the packets seen so far.
use smart_ids.Base.{
  string_eq, ◌==◌, ℕ, ◌≤◌, ◌-◌, ◌||◌, ◌≡◌, refl, ap, sym, subst, ◌∙◌, true, List, [], ◌∷◌, ◌++◌,
  String, arith, length, Bool-cases, inl, inr, Option, none, some, All, filter,
}
use smart_ids.Dict.{
  Dict, contains, get_or, keys, keys-put, add-IsDistinct, length-le_of_subset, contains-add,
}
use smart_ids.Packet.{PacketData, Time}
use smart_ids.Window.{slide_at}
use smart_ids.Window.Laws.{is_recent, fresh-eq-filter}
use smart_ids.Window.Tables.{slide_at-fresh}
use smart_ids.Heuristic.{
  HeuristicDetector, own_time, port_time, append_time, append_dst_port, append_syn_only,
}
use smart_ids.Heuristic.Prune.{SetOrder, tracked_ips}
use smart_ids.Heuristic.Evaluate.{track, prune_due, observe}
use smart_ids.Heuristic.History.{time_entry, entries, sources, contains-sources-snoc}
use smart_ids.Heuristic.Tracking.{Tracks, track-Tracks, times-track, ports-track, syns-track}
use smart_ids.Heuristic.Capacity.{HasDistinctIps, contains-tracked_ips, tracked-IsDistinct}
use smart_ids.Heuristic.Pruned.{
  SameSettings, SameSettings-trans, Sweeps, Sweeps-refl, prune-Tracks, prune-Sweeps,
}

-- The detector after the packets `ps`, the last of them at `now`, with nothing evicted.
pub record Follows (now : Time) (d : HeuristicDetector) (ps : List PacketData) : Type 0 where
  pub tracks : Tracks now d ps
  pub distinct : HasDistinctIps d
  pub known : (j : String) → contains j (tracked_ips d) ≡ true → contains j (sources ps) ≡ true

settings-track : (d : HeuristicDetector) (p : PacketData) → SameSettings d (track d p)
unfolding track append_time append_dst_port append_syn_only
settings-track d p = ground arith

contains-keys-slide_at :
    {A : Type 0} (time : A → Time) (w : Time) (k j : String) (x : A) (table : Dict String (List A))
    → contains j (keys (slide_at time w k x table)) ≡ ((k == j) || contains j (keys table))
unfolding slide_at
contains-keys-slide_at time w k j x table = rw keys-put (contains-add k j (keys table))

contains-keys-ports :
    (d : HeuristicDetector) (p : PacketData) (j : String) (o : Option ℕ)
    → p.dst_port ≡ o
    → contains j (keys (track d p).src_recent_dst_ports) ≡ true
    → ((p.src_ip == j) || contains j (keys d.src_recent_dst_ports)) ≡ true
contains-keys-ports d p j none e h = ground (arith, ports-track d p)
contains-keys-ports d p j (some port) e h = ground (
  arith,
  ports-track d p,
  contains-keys-slide_at port_time d.port_sweep_window p.src_ip j (p.timestamp, port)
      d.src_recent_dst_ports,
)

module _ {now : Time} {d : HeuristicDetector} {ps : List PacketData} (v : Follows now d ps)
    (p : PacketData) (h : now ≤ p.timestamp) where
  track-Follows : Follows p.timestamp (track d p) (ps ++ p ∷ [])
  track-Follows = record {
    tracks = track-Tracks now d ps v.tracks p h;
    distinct = rw times-track (
        unfold slide_at in
        rw keys-put (add-IsDistinct p.src_ip (keys d.src_packet_times) v.distinct));
    known = λ j m. ground (
      arith,
      v.known j,
      contains-sources-snoc ps p j,
      contains-tracked_ips d j,
      contains-tracked_ips (track d p) j,
      times-track d p,
      syns-track d p,
      contains-keys-ports d p j p.dst_port refl,
      contains-keys-slide_at own_time d.burst_window p.src_ip j p.timestamp d.src_packet_times,
      contains-keys-slide_at own_time d.syn_window p.src_ip j p.timestamp d.src_syn_only_times,
    );
  }

few_tracked :
    {now : Time} {d : HeuristicDetector} {ps : List PacketData}
    → Follows now d ps
    → length (tracked_ips d) ≤ length (sources ps)
few_tracked {d = d} {ps = ps} v =
    length-le_of_subset (tracked_ips d) (sources ps) (tracked-IsDistinct d v.distinct) v.known

module _ (order : SetOrder) {now : Time} {d : HeuristicDetector} {ps : List PacketData}
    (v : Follows now d ps) (p : PacketData) (h : now ≤ p.timestamp)
    (few : length (sources (ps ++ p ∷ [])) ≤ d.max_tracked_ips) where
  few_now : length (tracked_ips (track d p)) ≤ (track d p).max_tracked_ips
  few_now = omega (arith, few_tracked (track-Follows v p h), (settings-track d p).max_tracked_ips)

  observe-Sweeps : Sweeps (track d p) (observe order d p)
  unfolding observe tracked_ips
  observe-Sweeps = elim (Bool-cases (prune_due (track d p) p.timestamp)) [
    | inl due ↦
        let s = prune-Sweeps order (track d p) p.timestamp (track-Follows v p h).distinct few_now in
        rw (due, observe)
          (record {
            settings = ground (arith, s.settings);
            distinct = s.distinct;
            fewer = s.fewer;
            times = s.times;
            ports = s.ports;
            syns = s.syns;
          })
    | inr not_due ↦ rw (not_due, observe) (Sweeps-refl (track d p))
  ]

  observe-Tracks : Tracks p.timestamp (observe order d p) (ps ++ p ∷ [])
  unfolding observe
  observe-Tracks = elim (Bool-cases (prune_due (track d p) p.timestamp)) [
    | inl due ↦
        let f = track-Follows v p h in
        let t =
          prune-Tracks order (track d p) p.timestamp (ps ++ p ∷ []) f.distinct few_now f.tracks in
        rw (due, observe) (record { times = t.times; ports = t.ports; syns = t.syns })
    | inr not_due ↦ rw (not_due, observe) (track-Follows v p h).tracks
  ]

  pub observe-Follows : Follows p.timestamp (observe order d p) (ps ++ p ∷ [])
  observe-Follows =
      let f = track-Follows v p h in
      record {
        tracks = observe-Tracks;
        distinct = observe-Sweeps.distinct f.distinct;
        known = λ j m. f.known j (observe-Sweeps.fewer j m);
      }

  pub settings-observe : SameSettings d (observe order d p)
  settings-observe = SameSettings-trans (settings-track d p) observe-Sweeps.settings

  -- What the table of packet times says of the source of the packet.
  pub times-observe :
      get_or (observe order d p).src_packet_times p.src_ip []
      ≡ filter
          (is_recent own_time (p.timestamp - d.burst_window))
          (entries time_entry (ps ++ p ∷ []) p.src_ip)
  times-observe =
      fresh-eq-filter own_time (observe-Tracks.times p.src_ip) fresh
      ∙ ap
          (λ w.
            filter (is_recent own_time (p.timestamp - w))
              (entries time_entry (ps ++ p ∷ []) p.src_ip))
          settings-observe.burst_window
    where
      slid :
          All
            (λ y. p.timestamp - d.burst_window ≤ own_time y)
            (get_or (track d p).src_packet_times p.src_ip [])
      slid = rw times-track (
          slide_at-fresh own_time d.burst_window now d.src_packet_times
            (entries time_entry ps p.src_ip) p.src_ip p.timestamp (v.tracks.times p.src_ip) h)

      fresh :
          All
            (λ y. p.timestamp - (observe order d p).burst_window ≤ own_time y)
            (get_or (observe order d p).src_packet_times p.src_ip [])
      fresh =
          subst
            (λ w.
              All (λ y. p.timestamp - w ≤ own_time y)
                (get_or (observe order d p).src_packet_times p.src_ip []))
            (sym settings-observe.burst_window)
            (observe-Sweeps.times (p.timestamp - d.burst_window) p.src_ip slid)
