-- ===== src/Heuristic/Capacity.antt =====
-- `_prune_tracked_ips` of threat_detection/heuristic.py bounds the number of tracked addresses, and
-- gives up the longest unseen ones.
use smart_ids.Base.{
  string_eq, ◌==◌, ℕ, ◌≤◌, ◌-◌, ◌||◌, ◌≡◌, refl, true, false, List, [], ◌∷◌, String, if◌then◌else◌,
  arith, length, drop, length-drop, sort_by, sort_by-IsSortedBy, length-sort_by,
}
use smart_ids.Dict.{
  Dict, contains, get_or, pop, keys, IsDistinct, union, keys-pop, contains-discard, contains-union,
  union-IsDistinct, discard-IsDistinct, contains-sort_by, contains-take-drop, key-take-le-drop,
  length-le_of_subset,
}
use smart_ids.Packet.{Time}
use smart_ids.Heuristic.{HeuristicDetector}
use smart_ids.Heuristic.Prune.{SetOrder, tracked_ips, forget, forget_all, overflow_ips}

abbrev pub HasDistinctIps : HeuristicDetector → Type 0
HasDistinctIps d = IsDistinct (keys d.src_packet_times)

pub contains-tracked_ips :
    (d : HeuristicDetector) (j : String)
    → contains j (tracked_ips d) ≡ (
        contains j (keys d.src_packet_times)
        || contains j (keys d.src_recent_dst_ports)
        || contains j (keys d.src_syn_only_times))
unfolding tracked_ips
contains-tracked_ips d j = ground (
  arith,
  contains-union j (union (keys d.src_packet_times) (keys d.src_recent_dst_ports))
      (keys d.src_syn_only_times),
  contains-union j (keys d.src_packet_times) (keys d.src_recent_dst_ports),
)

contains-keys-pop :
    {V : Type 0} (d : Dict String V) (k j : String)
    → contains j (keys (pop d k)) ≡ (if k == j then false else contains j (keys d))
contains-keys-pop d k j = rw keys-pop (contains-discard k j (keys d))

contains-forget :
    (d : HeuristicDetector) (k j : String)
    → contains j (tracked_ips (forget d k)) ≡ (if k == j then false else contains j (tracked_ips d))
unfolding forget
contains-forget d k j = ground (
  arith,
  contains-tracked_ips d j,
  contains-tracked_ips (forget d k) j,
  contains-keys-pop d.src_packet_times k j,
  contains-keys-pop d.src_recent_dst_ports k j,
  contains-keys-pop d.src_syn_only_times k j,
)

contains-forget_all :
    (d : HeuristicDetector) (ks : List String) (j : String)
    → contains j (tracked_ips (forget_all d ks))
      ≡ (if contains j ks then false else contains j (tracked_ips d))
unfolding forget_all contains
contains-forget_all d [] j = refl
contains-forget_all d (k ∷ ks) j =
    ground (arith, contains-forget_all (forget d k) ks j, contains-forget d k j)

forget-HasDistinctIps :
    (d : HeuristicDetector) (k : String) → HasDistinctIps d → HasDistinctIps (forget d k)
unfolding forget
forget-HasDistinctIps d k h = rw keys-pop (discard-IsDistinct k (keys d.src_packet_times) h)

pub forget_all-HasDistinctIps :
    (d : HeuristicDetector) (ks : List String) → HasDistinctIps d → HasDistinctIps (forget_all d ks)
unfolding forget_all
forget_all-HasDistinctIps d [] h = h
forget_all-HasDistinctIps d (k ∷ ks) h =
    forget_all-HasDistinctIps (forget d k) ks (forget-HasDistinctIps d k h)

max-forget_all :
    (d : HeuristicDetector) (ks : List String)
    → (forget_all d ks).max_tracked_ips ≡ d.max_tracked_ips
unfolding forget_all forget
max-forget_all d [] = refl
max-forget_all d (k ∷ ks) = max-forget_all (forget d k) ks

pub tracked-IsDistinct : (d : HeuristicDetector) → HasDistinctIps d → IsDistinct (tracked_ips d)
unfolding tracked_ips
tracked-IsDistinct d h =
    union-IsDistinct (union (keys d.src_packet_times) (keys d.src_recent_dst_ports))
      (keys d.src_syn_only_times)
      (union-IsDistinct (keys d.src_packet_times) (keys d.src_recent_dst_ports) h)

module _ (order : SetOrder) (d : HeuristicDetector) where
  abbrev seen_at : String → Time
  seen_at ip = get_or d.last_seen ip 0

  abbrev by_age : List String
  by_age = sort_by seen_at (order.arrange (tracked_ips d))

  abbrev surplus : ℕ
  surplus = length (order.arrange (tracked_ips d)) - d.max_tracked_ips

  -- Who is left after the second loop is among the most recently seen.
  kept_among_newest :
      (j : String)
      → contains j (tracked_ips (forget_all d (overflow_ips order d))) ≡ true
      → contains j (drop surplus by_age) ≡ true
  unfolding overflow_ips
  kept_among_newest j h = ground (
    arith,
    contains-forget_all d (overflow_ips order d) j,
    order.arrange_contains j (tracked_ips d),
    contains-sort_by seen_at j (order.arrange (tracked_ips d)),
    contains-take-drop j surplus by_age,
  )

  pub evict_bound :
      HasDistinctIps d
      → length (tracked_ips (forget_all d (overflow_ips order d))) ≤ d.max_tracked_ips
  evict_bound h =
      let kept = forget_all d (overflow_ips order d) in
      omega (
        arith,
        length-le_of_subset (tracked_ips kept) (drop surplus by_age)
            (tracked-IsDistinct kept (forget_all-HasDistinctIps d (overflow_ips order d) h))
            kept_among_newest,
        length-drop surplus by_age,
        length-sort_by seen_at (order.arrange (tracked_ips d)),
      )

  pub evict_oldest :
      (gone kept : String)
      → contains gone (overflow_ips order d) ≡ true
      → contains kept (tracked_ips (forget_all d (overflow_ips order d))) ≡ true
      → seen_at gone ≤ seen_at kept
  unfolding overflow_ips
  evict_oldest gone kept hg hk =
      key-take-le-drop seen_at surplus by_age gone kept
        (sort_by-IsSortedBy seen_at (order.arrange (tracked_ips d))) hg (kept_among_newest kept hk)
