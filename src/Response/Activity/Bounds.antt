-- ===== src/Response/Activity/Bounds.antt =====
-- The memory and the file of the activity tracker stay bounded.
use smart_ids.Base.{
  string_eq, ℕ, ◌+◌, ◌-◌, ◌≤◌, ◌<◌, ◌≡◌, true, List, [], ◌∷◌, String, length, length-last_n, take,
  drop, length-drop, sort_by, length-sort_by, ltb, leb, min, refl, ap, ◌∙◌, if◌then◌else◌, arith,
  Bool-cases, inl, inr, length-append, ltb→lt, leb→le,
}
use smart_ids.Dict.{
  Dict, size, keys, get, put, contains, IsDistinct, keys-put, add-IsDistinct, pop_all-IsDistinct,
  length-keys, length-le_of_subset, contains-sort_by, contains-take-drop, get-pop_all,
  contains-keys,
}
use smart_ids.Packet.{Time}
use smart_ids.Response.Activity.{
  IpState, IpActivityTracker, note_activity, or_fresh, prune_state, line_of, compact_file_if_needed,
  record_activity, last_detected,
}

module _ (limit : ℕ) (d : Dict String IpState) (h : IsDistinct (keys d)) where
  abbrev by_age : List String
  by_age = sort_by (last_detected d) (keys d)

  kept_newest :
      (j : String)
      → contains j (keys (prune_state limit d)) ≡ true
      → contains j (drop (size d - limit) by_age) ≡ true
  unfolding prune_state
  kept_newest j m = ground (
    arith,
    contains-keys (prune_state limit d) j,
    contains-keys d j,
    get-pop_all d (take (size d - limit) by_age) j,
    contains-sort_by (last_detected d) j (keys d),
    contains-take-drop j (size d - limit) by_age,
  )

  pub prune_state_bound : size (prune_state limit d) ≤ limit
  unfolding prune_state
  prune_state_bound = omega (
    arith,
    length-le_of_subset (keys (prune_state limit d)) (drop (size d - limit) by_age)
        (pop_all-IsDistinct d (take (size d - limit) by_age) h) kept_newest,
    length-keys (prune_state limit d),
    length-keys d,
    length-drop (size d - limit) by_age,
    length-sort_by (last_detected d) (keys d),
  )

pub record IsBounded (t : IpActivityTracker) : Type 0 where
  pub interval : 0 < t.file_compaction_interval_records
  pub entries : 0 < t.max_file_entries
  pub distinct : IsDistinct (keys t.state)
  pub ips : size t.state ≤ t.max_tracked_ips
  pub since : t.records_since_compaction < t.file_compaction_interval_records

prune_state-IsDistinct :
    (limit : ℕ) (d : Dict String IpState)
    → IsDistinct (keys d)
    → IsDistinct (keys (prune_state limit d))
unfolding prune_state
prune_state-IsDistinct limit d h =
    pop_all-IsDistinct d (take (size d - limit) (sort_by (last_detected d) (keys d))) h

-- What the compaction needs of the record that was just written.
record IsWritten (t : IpActivityTracker) : Type 0 where
  interval : 0 < t.file_compaction_interval_records
  entries : 0 < t.max_file_entries
  distinct : IsDistinct (keys t.state)
  ips : size t.state ≤ t.max_tracked_ips
  since : t.records_since_compaction ≤ t.file_compaction_interval_records

-- How long the file is after a compaction that finds `lines` lines and this many records since the
-- last one: no longer than the limit if an interval is over and the file can be read.
abbrev pub lines_left : IpActivityTracker → ℕ → ℕ → ℕ
lines_left t records lines =
    if ltb records t.file_compaction_interval_records
    then lines
    else if t.file_readable
    then min t.max_file_entries lines
    else lines

compact-IsBounded :
    (t : IpActivityTracker)
    → IsWritten t
    → IsBounded (compact_file_if_needed t)
      × (length (compact_file_if_needed t).file
          ≡ lines_left t t.records_since_compaction (length t.file))
unfolding compact_file_if_needed
compact-IsBounded t w =
    elim (Bool-cases (ltb t.records_since_compaction t.file_compaction_interval_records)) [
      | inl early ↦
          rw (early, compact_file_if_needed)
            (
              record {
                interval = w.interval;
                entries = w.entries;
                distinct = w.distinct;
                ips = w.ips;
                since = ltb→lt _ _ early;
              },
              refl,
            )
      | inr due ↦ elim (Bool-cases t.file_readable) [
        | inr failed ↦
            simp (due, failed)
              (
                record {
                  interval = w.interval;
                  entries = w.entries;
                  distinct = w.distinct;
                  ips = w.ips;
                  since = w.interval;
                },
                refl,
              )
        | inl readable ↦ elim (Bool-cases (leb (length t.file) t.max_file_entries)) [
          | inl short ↦
              simp (due, readable, short)
                (
                  record {
                    interval = w.interval;
                    entries = w.entries;
                    distinct = w.distinct;
                    ips = w.ips;
                    since = w.interval;
                  },
                  omega (arith, leb→le _ _ short),
                )
          | inr long ↦
              simp (due, readable, long)
                (
                  record {
                    interval = w.interval;
                    entries = w.entries;
                    distinct = w.distinct;
                    ips = w.ips;
                    since = w.interval;
                  },
                  length-last_n t.max_file_entries t.file w.entries,
                )
        ]
      ]
    ]

-- Every record keeps the bounds: there are at most `max_tracked_ips` addresses in memory, each once,
-- and the counter stays below the interval. The file gets one line longer, but when an interval of
-- records is over and the file can be read, it is cut to `max_file_entries` lines if it has
-- more, however long a restart or a read that failed had let it become.
pub record_activity-IsBounded :
    (t : IpActivityTracker) (ip_address attack_type action : String) (now : Time)
    → IsBounded t
    → IsBounded (record_activity t ip_address attack_type action now)
      × (length (record_activity t ip_address attack_type action now).file
          ≡ lines_left t (t.records_since_compaction + 1) (length t.file + 1))
unfolding record_activity
record_activity-IsBounded t ip_address attack_type action now v =
    let s =
      note_activity t.max_action_history (or_fresh now (get t.state ip_address)) attack_type action
        now in
    let known : IsDistinct (keys (put t.state ip_address s)) =
      rw keys-put (add-IsDistinct ip_address (keys t.state) v.distinct) in
    let line = line_of t.max_action_history ip_address s in
    let (bounded, size) = compact-IsBounded _ (record {
      interval = v.interval;
      entries = v.entries;
      distinct = prune_state-IsDistinct t.max_tracked_ips (put t.state ip_address s) known;
      ips = prune_state_bound t.max_tracked_ips (put t.state ip_address s) known;
      since = omega (arith, v.since);
    }) in
    (
      bounded,
      size ∙ ap (lines_left t (t.records_since_compaction + 1)) (length-append t.file (line ∷ [])),
    )
