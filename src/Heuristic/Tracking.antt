-- ===== src/Heuristic/Tracking.antt =====
-- The three tables of the detector are windows on the history of every source, as long as nothing is
-- evicted: `evaluate_packet` of threat_detection/heuristic.py against the packets seen so far.
use smart_ids.Base.{
  string_eq, ℕ, ◌≤◌, ◌≡◌, refl, Bool, true, false, Option, none, some, List, [], ◌∷◌, ◌++◌,
  if◌then◌else◌, arith,
}
use smart_ids.Packet.{PacketData, Time}
use smart_ids.Window.{slide_at}
use smart_ids.Window.Tables.{IsTable, IsTable-later, slide_at-IsTable}
use smart_ids.Heuristic.{
  HeuristicDetector, own_time, port_time, syn_only, append_time, append_dst_port, append_syn_only,
}
use smart_ids.Heuristic.Evaluate.{track}
use smart_ids.Heuristic.History.{
  time_entry, port_entry, syn_entry, entries, entries-snoc_none, entries-snoc_one,
}

pub record Tracks (now : Time) (d : HeuristicDetector) (ps : List PacketData) : Type 0 where
  pub times : IsTable own_time d.burst_window now d.src_packet_times (entries time_entry ps)
  pub ports :
      IsTable port_time d.port_sweep_window now d.src_recent_dst_ports (entries port_entry ps)
  pub syns : IsTable own_time d.syn_window now d.src_syn_only_times (entries syn_entry ps)

module _ (d : HeuristicDetector) (p : PacketData) where
  abbrev tracked_ports : HeuristicDetector
  tracked_ports =
      append_dst_port (append_time d p.src_ip p.timestamp) p.src_ip p.dst_port p.timestamp

  pub times-track :
      (track d p).src_packet_times
      ≡ slide_at own_time d.burst_window p.src_ip p.timestamp d.src_packet_times
  unfolding track append_time append_dst_port append_syn_only
  times-track = ground arith

  pub windows-track :
      ((track d p).burst_window ≡ d.burst_window)
      × ((track d p).port_sweep_window ≡ d.port_sweep_window)
      × ((track d p).syn_window ≡ d.syn_window)
      × ((track d p).max_tracked_ips ≡ d.max_tracked_ips)
  unfolding track append_time append_dst_port append_syn_only
  windows-track = ground arith

  pub ports-track : (track d p).src_recent_dst_ports ≡ elim p.dst_port [
    | none ↦ d.src_recent_dst_ports
    | some port ↦
        slide_at port_time d.port_sweep_window p.src_ip (p.timestamp, port) d.src_recent_dst_ports
  ]
  unfolding track append_time append_dst_port append_syn_only
  ports-track = ground arith

  pub syns-track : (track d p).src_syn_only_times ≡ (
      if syn_only p.tcp_flags
      then slide_at own_time d.syn_window p.src_ip p.timestamp d.src_syn_only_times
      else d.src_syn_only_times)
  unfolding track append_time append_dst_port append_syn_only
  syns-track = ground arith

module _ (now : Time) (d : HeuristicDetector) (ps : List PacketData) (v : Tracks now d ps)
    (p : PacketData) (h : now ≤ p.timestamp) where
  ports-track-IsTable :
      (o : Option ℕ)
      → p.dst_port ≡ o
      → IsTable port_time d.port_sweep_window p.timestamp
          (track d p).src_recent_dst_ports
          (entries port_entry (ps ++ p ∷ []))
  ports-track-IsTable none e j =
      rw (ports-track, entries-snoc_none port_entry ps p j (rw e), e)
        (IsTable-later port_time _ now _ _ v.ports h j)
  ports-track-IsTable (some port) e j = rw ports-track (
      simp e (
        slide_at-IsTable port_time _ now _ _ v.ports p.src_ip (p.timestamp, port) _ h
          (λ i. entries-snoc_one port_entry ps p (p.timestamp, port) i (rw e)) j))

  syns-track-IsTable :
      (b : Bool)
      → syn_only p.tcp_flags ≡ b
      → IsTable own_time d.syn_window p.timestamp
          (track d p).src_syn_only_times
          (entries syn_entry (ps ++ p ∷ []))
  syns-track-IsTable false e j =
      rw (syns-track, e, entries-snoc_none syn_entry ps p j (rw e))
        (IsTable-later own_time _ now _ _ v.syns h j)
  syns-track-IsTable true e j =
      rw (syns-track, e)
        (slide_at-IsTable own_time _ now _ _ v.syns p.src_ip p.timestamp _ h
          (λ i. entries-snoc_one syn_entry ps p p.timestamp i (rw e)) j)

  pub track-Tracks : Tracks p.timestamp (track d p) (ps ++ p ∷ [])
  track-Tracks = record {
    times =
        rw ((windows-track d p).0, times-track)
          (slide_at-IsTable own_time _ now _ _ v.times p.src_ip p.timestamp _ h
            (λ j. entries-snoc_one time_entry ps p p.timestamp j refl));
    ports = rw (windows-track d p).1 (ports-track-IsTable p.dst_port refl);
    syns = rw (windows-track d p).2 (syns-track-IsTable (syn_only p.tcp_flags) refl);
  }
