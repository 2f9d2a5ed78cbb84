-- ===== src/Heuristic/Sweeping.antt =====
-- The first loop of `_prune_tracked_ips` loses nothing that a later rule could count.
use smart_ids.Base.{
  string_eq, ◌-◌, ◌≡◌, Bool, true, false, List, [], ◌∷◌, String, if◌then◌else◌, arith, All,
  is_empty, Bool-cases, inl, inr,
}
use smart_ids.Dict.{Dict, get_or, pop}
use smart_ids.Packet.{PacketData, Time}
use smart_ids.Window.{trim_at}
use smart_ids.Window.Tables.{trim_at-IsTable, pop-IsTable, All-trim_at, All-pop}
use smart_ids.Heuristic.{HeuristicDetector, own_time, port_time}
use smart_ids.Heuristic.Prune.{trim_ip, is_idle, forget, sweep_ip, sweep}
use smart_ids.Heuristic.Tracking.{Tracks}

module _ {ℓ} {A : Type ℓ} (time : A → Time) (now cutoff : Time) (ip : String) where
  -- One table after the body of the loop.
  abbrev pub swept : Bool → Dict String (List A) → Dict String (List A)
  swept idle table =
      if idle then pop (trim_at time cutoff ip table) ip else trim_at time cutoff ip table

  pub All-swept {κ} :
      (P : A → Type κ) (idle : Bool) (table : Dict String (List A)) (j : String)
      → All P (get_or table j [])
      → All P (get_or (swept idle table) j [])
  All-swept P true table j h =
      All-pop time P ip j (trim_at time cutoff ip table) (All-trim_at time P cutoff ip j table h)
  All-swept P false table j h = All-trim_at time P cutoff ip j table h

module _ (now : Time) (d : HeuristicDetector) (ip : String) where
  abbrev pub idle_after : Bool
  idle_after = is_idle (trim_ip d now ip) ip

  abbrev after_sweep_ip : HeuristicDetector
  after_sweep_ip = record d {
    src_packet_times = swept own_time now (now - d.burst_window) ip idle_after d.src_packet_times;
    src_recent_dst_ports =
        swept port_time now (now - d.port_sweep_window) ip idle_after d.src_recent_dst_ports;
    src_syn_only_times = swept own_time now (now - d.syn_window) ip idle_after d.src_syn_only_times;
    last_seen = if idle_after then pop d.last_seen ip else d.last_seen;
  }

  pub sweep_ip_lem : sweep_ip now d ip ≡ after_sweep_ip
  unfolding sweep_ip trim_ip forget
  sweep_ip_lem = ground arith

  -- The three buckets are empty where the loop drops the address.
  idle_parts :
      idle_after ≡ true
      → (is_empty (get_or (trim_at own_time (now - d.burst_window) ip d.src_packet_times) ip [])
          ≡ true)
        × (is_empty (
              get_or
                (trim_at port_time (now - d.port_sweep_window) ip d.src_recent_dst_ports)
                ip
                [])
            ≡ true)
        × (is_empty (get_or (trim_at own_time (now - d.syn_window) ip d.src_syn_only_times) ip [])
            ≡ true)
  unfolding is_idle trim_ip
  idle_parts h = ground arith

  pub sweep_ip-Tracks : (ps : List PacketData) → Tracks now d ps → Tracks now (sweep_ip now d ip) ps
  sweep_ip-Tracks ps v = rw sweep_ip_lem (elim (Bool-cases idle_after) [
    | inl idle ↦
        let (e, f, g) = idle_parts idle in
        rw idle (record {
          times =
              pop-IsTable own_time _ now _ _ (trim_at-IsTable own_time _ now _ _ v.times ip) ip e;
          ports =
              pop-IsTable port_time _ now _ _ (trim_at-IsTable port_time _ now _ _ v.ports ip) ip f;
          syns = pop-IsTable own_time _ now _ _ (trim_at-IsTable own_time _ now _ _ v.syns ip) ip g;
        })
    | inr busy ↦ rw busy (record {
      times = trim_at-IsTable own_time _ now _ _ v.times ip;
      ports = trim_at-IsTable port_time _ now _ _ v.ports ip;
      syns = trim_at-IsTable own_time _ now _ _ v.syns ip;
    })
  ])

pub sweep-Tracks :
    (now : Time) (d : HeuristicDetector) (ps : List PacketData) (ips : List String)
    → Tracks now d ps
    → Tracks now (sweep now d ips) ps
unfolding sweep
sweep-Tracks now d ps [] v = v
sweep-Tracks now d ps (ip ∷ ips) v =
    sweep-Tracks now (sweep_ip now d ip) ps ips (sweep_ip-Tracks now d ip ps v)
