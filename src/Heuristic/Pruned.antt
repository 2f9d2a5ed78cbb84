-- ===== src/Heuristic/Pruned.antt =====
-- `_prune_tracked_ips` of threat_detection/heuristic.py, both loops together.
use smart_ids.Base.{
  string_eq, ◌≤◌, ◌-◌, ◌≡◌, refl, ap, sym, ◌∙◌, Bool, true, false, List, [], ◌∷◌, String, arith,
  length, Option-cases, inl, inr, All, eq_iff,
}
use smart_ids.Dict.{
  Dict, contains, get, get_or, keys, IsDistinct, keys-pop, keys-put, contains-discard, contains-add,
  contains-keys, add-IsDistinct, discard-IsDistinct, length-le_of_subset,
}
use smart_ids.Packet.{PacketData, Time}
use smart_ids.Window.{trim_at, trim}
use smart_ids.Heuristic.{HeuristicDetector, own_time, port_time}
use smart_ids.Heuristic.Prune.{
  SetOrder, tracked_ips, forget_all, sweep_ip, sweep, overflow_ips, prune_tracked_ips,
}
use smart_ids.Heuristic.Tracking.{Tracks}
use smart_ids.Heuristic.Sweeping.{sweep_ip_lem, idle_after, swept, All-swept, sweep-Tracks}
use smart_ids.Heuristic.Capacity.{
  HasDistinctIps, contains-tracked_ips, evict_bound, tracked-IsDistinct,
}

module _ {A : Type 0} (time : A → Time) (now cutoff : Time) (ip : String) where
  keys-trim_at-IsDistinct :
      (table : Dict String (List A))
      → IsDistinct (keys table)
      → IsDistinct (keys (trim_at time cutoff ip table))
  unfolding trim_at
  keys-trim_at-IsDistinct table h = elim (Option-cases (get table ip)) [
    | inl e ↦ rw (e, trim_at) h
    | inr (b, e) ↦
        rw (e, trim_at)
          (rw (keys-put table ip (trim time cutoff b)) (add-IsDistinct ip (keys table) h))
  ]

  contains-keys-trim_at :
      (table : Dict String (List A)) (j : String)
      → contains j (keys (trim_at time cutoff ip table)) ≡ contains j (keys table)
  unfolding trim_at
  contains-keys-trim_at table j = elim (Option-cases (get table ip)) [
    | inl e ↦ rw (e, trim_at) refl
    | inr (b, e) ↦
        rw (e, trim_at)
          (ground (
            arith,
            keys-put table ip (trim time cutoff b),
            contains-add ip j (keys table),
            contains-keys table ip,
            contains-keys table j,
            eq_iff ip j,
            ap (λ k. contains k (keys table)) {x = ip} {y = j},
          ))
  ]

  keys-swept-IsDistinct :
      (idle : Bool) (table : Dict String (List A))
      → IsDistinct (keys table)
      → IsDistinct (keys (swept time now cutoff ip idle table))
  keys-swept-IsDistinct true table h = rw keys-pop (
      discard-IsDistinct ip (keys (trim_at time cutoff ip table)) (keys-trim_at-IsDistinct table h))
  keys-swept-IsDistinct false table h = keys-trim_at-IsDistinct table h

  contains-keys-swept :
      (idle : Bool) (table : Dict String (List A)) (j : String)
      → contains j (keys (swept time now cutoff ip idle table)) ≡ true
      → contains j (keys table) ≡ true
  contains-keys-swept true table j h = ground (
    arith,
    contains-keys-trim_at table j,
    keys-pop (trim_at time cutoff ip table) ip,
    contains-discard ip j (keys (trim_at time cutoff ip table)),
  )
  contains-keys-swept false table j h = sym (contains-keys-trim_at table j) ∙ h

-- The settings of two states agree.
pub record SameSettings (d d' : HeuristicDetector) : Type 0 where
  pub burst_window : d'.burst_window ≡ d.burst_window
  pub port_sweep_window : d'.port_sweep_window ≡ d.port_sweep_window
  pub syn_window : d'.syn_window ≡ d.syn_window
  pub burst_packet_threshold : d'.burst_packet_threshold ≡ d.burst_packet_threshold
  pub port_sweep_threshold :
      d'.port_sweep_unique_ports_threshold ≡ d.port_sweep_unique_ports_threshold
  pub syn_only_threshold : d'.syn_only_threshold ≡ d.syn_only_threshold
  pub max_tracked_ips : d'.max_tracked_ips ≡ d.max_tracked_ips
  pub sensitive_ports : d'.sensitive_ports ≡ d.sensitive_ports
  pub enabled : d'.enabled ≡ d.enabled

pub SameSettings-trans :
    {a b c : HeuristicDetector} → SameSettings a b → SameSettings b c → SameSettings a c
SameSettings-trans h k = ground arith

-- What the first loop keeps: the settings, and what holds of all entries of a bucket.
pub record Sweeps (d d' : HeuristicDetector) : Type 0 where
  pub settings : SameSettings d d'
  pub distinct : HasDistinctIps d → HasDistinctIps d'
  pub fewer : (j : String) → contains j (tracked_ips d') ≡ true → contains j (tracked_ips d) ≡ true
  pub times :
      (c : Time) (j : String)
      → All (λ y. c ≤ own_time y) (get_or d.src_packet_times j [])
      → All (λ y. c ≤ own_time y) (get_or d'.src_packet_times j [])
  pub ports :
      (c : Time) (j : String)
      → All (λ y. c ≤ port_time y) (get_or d.src_recent_dst_ports j [])
      → All (λ y. c ≤ port_time y) (get_or d'.src_recent_dst_ports j [])
  pub syns :
      (c : Time) (j : String)
      → All (λ y. c ≤ own_time y) (get_or d.src_syn_only_times j [])
      → All (λ y. c ≤ own_time y) (get_or d'.src_syn_only_times j [])

sweep_ip-Sweeps : (now : Time) (d : HeuristicDetector) (ip : String) → Sweeps d (sweep_ip now d ip)
sweep_ip-Sweeps now d ip =
    let idle = idle_after now d ip in
    rw sweep_ip_lem (record {
      settings = ground arith;
      distinct =
          keys-swept-IsDistinct own_time now (now - d.burst_window) ip idle d.src_packet_times;
      fewer = λ j h. ground (
        arith,
        contains-tracked_ips d j,
        (rw contains-tracked_ips at h),
        contains-keys-swept own_time now (now - d.burst_window) ip idle d.src_packet_times j,
        contains-keys-swept port_time now (now - d.port_sweep_window) ip idle d.src_recent_dst_ports
            j,
        contains-keys-swept own_time now (now - d.syn_window) ip idle d.src_syn_only_times j,
      );
      times = λ c j h.
          All-swept own_time now (now - d.burst_window) ip (λ y. c ≤ own_time y) idle
            d.src_packet_times j h;
      ports = λ c j h.
          All-swept port_time now (now - d.port_sweep_window) ip (λ y. c ≤ port_time y) idle
            d.src_recent_dst_ports j h;
      syns = λ c j h.
          All-swept own_time now (now - d.syn_window) ip (λ y. c ≤ own_time y) idle
            d.src_syn_only_times j h;
    })

pub Sweeps-refl : (d : HeuristicDetector) → Sweeps d d
Sweeps-refl d = record {
  settings = ground arith;
  distinct = λ h. h;
  fewer = λ j h. h;
  times = λ c j h. h;
  ports = λ c j h. h;
  syns = λ c j h. h;
}

pub sweep-Sweeps :
    (now : Time) (d : HeuristicDetector) (ips : List String) → Sweeps d (sweep now d ips)
unfolding sweep
sweep-Sweeps now d [] = Sweeps-refl d
sweep-Sweeps now d (ip ∷ ips) =
    let a = sweep_ip-Sweeps now d ip in
    let b = sweep-Sweeps now (sweep_ip now d ip) ips in
    record {
      settings = SameSettings-trans a.settings b.settings;
      distinct = λ h. b.distinct (a.distinct h);
      fewer = λ j h. a.fewer j (b.fewer j h);
      times = λ c j h. b.times c j (a.times c j h);
      ports = λ c j h. b.ports c j (a.ports c j h);
      syns = λ c j h. b.syns c j (a.syns c j h);
    }

module _ (order : SetOrder) (d : HeuristicDetector) (now : Time) where
  abbrev swept_all : HeuristicDetector
  swept_all = sweep now d (order.arrange (tracked_ips d))

  -- After a prune at most `max_tracked_ips` addresses are tracked, however many there were.
  pub prune_bound :
      HasDistinctIps d → length (tracked_ips (prune_tracked_ips order d now)) ≤ d.max_tracked_ips
  unfolding prune_tracked_ips
  prune_bound h =
      let s = sweep-Sweeps now d (order.arrange (tracked_ips d)) in
      omega (arith, evict_bound order swept_all (s.distinct h), s.settings.max_tracked_ips)

  -- Under the limit a prune is the first loop alone.
  prune-eq-sweep :
      HasDistinctIps d
      → length (tracked_ips d) ≤ d.max_tracked_ips
      → prune_tracked_ips order d now ≡ swept_all
  unfolding prune_tracked_ips overflow_ips
  prune-eq-sweep h few =
      let s = sweep-Sweeps now d (order.arrange (tracked_ips d)) in
      let fits : length (tracked_ips swept_all) ≤ length (tracked_ips d) =
        length-le_of_subset (tracked_ips swept_all) (tracked_ips d)
          (tracked-IsDistinct swept_all (s.distinct h)) s.fewer in
      let none_over : length (order.arrange (tracked_ips swept_all)) - swept_all.max_tracked_ips
          ≡ 0 =
        omega (arith, order.arrange_length (tracked_ips swept_all), s.settings.max_tracked_ips) in
      rw none_over (unfold forget_all in refl)

  pub prune-Tracks :
      (ps : List PacketData)
      → HasDistinctIps d
      → length (tracked_ips d) ≤ d.max_tracked_ips
      → Tracks now d ps
      → Tracks now (prune_tracked_ips order d now) ps
  prune-Tracks ps h few v =
      rw (prune-eq-sweep h few) (sweep-Tracks now d ps (order.arrange (tracked_ips d)) v)

  pub prune-Sweeps :
      HasDistinctIps d
      → length (tracked_ips d) ≤ d.max_tracked_ips
      → Sweeps d (prune_tracked_ips order d now)
  prune-Sweeps h few =
      rw (prune-eq-sweep h few) (sweep-Sweeps now d (order.arrange (tracked_ips d)))
