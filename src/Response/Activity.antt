-- ===== src/Response/Activity.antt =====
-- response_engine/ip_activity_tracker.py. Times stand for the ISO texts of the source, which order in
-- the same way. The file is the list of its lines; whether it can be read, when it is to be
-- compacted, is the field `file_readable`, which is no part of the object.
pub mod Bounds
use smart_ids.Base.{
  string_eq, ◌==◌, ℕ, ◌+◌, ◌-◌, Bool, true, false, not, Option, none, some, List, [], ◌∷◌, ◌++◌,
  String, length, last_n, take, map, sort_by, ltb, leb, if◌then◌else◌,
}
use smart_ids.Dict.{Dict, size, keys, add, get, put, pop_all}
use smart_ids.Packet.{Time}

pub record ActionEntry : Type 0 where
  pub timestamp : Time
  pub action : String
  pub attack_type : String

pub record IpState : Type 0 where
  pub first_detected_time : Time
  pub last_detected_time : Time
  pub total_attack_attempts : ℕ
  pub attack_types_used : List String
  pub action_history : List ActionEntry

-- One line of the file, and one item of a snapshot.
pub record ActivityLine : Type 0 where
  pub ip : String
  pub state : IpState
  pub attempt_pattern : String

pub record IpActivityTracker : Type 0 where
  pub max_tracked_ips : ℕ
  pub max_action_history : ℕ
  pub max_file_entries : ℕ
  pub file_compaction_interval_records : ℕ
  pub state : Dict String IpState
  pub file : List ActivityLine
  pub file_readable : Bool
  pub records_since_compaction : ℕ

unfoldable pub fresh_state : Time → IpState
fresh_state now = record {
  first_detected_time = now;
  last_detected_time = now;
  total_attack_attempts = 0;
  attack_types_used = [];
  action_history = [];
}

abbrev pub or_fresh : Time → Option IpState → IpState
or_fresh now none = fresh_state now
or_fresh now (some s) = s

-- The updates of the state of one address.
unfoldable pub note_activity : ℕ → IpState → String → String → Time → IpState
note_activity max_action_history s attack_type action now = record s {
  last_detected_time = now;
  total_attack_attempts = s.total_attack_attempts + 1;
  attack_types_used = add attack_type s.attack_types_used;
  action_history = last_n max_action_history (
      s.action_history
      ++ record { timestamp = now; action = action; attack_type = attack_type } ∷ []);
}

abbrev last_detected : Dict String IpState → String → Time
last_detected state ip_address = elim (get state ip_address) [
  | none ↦ 0
  | some s ↦ s.last_detected_time
]

-- `_prune_state`
unfoldable pub prune_state : ℕ → Dict String IpState → Dict String IpState
prune_state max_tracked_ips state =
    pop_all state (take (size state - max_tracked_ips) (sort_by (last_detected state) (keys state)))

unfoldable pub attempt_pattern : IpState → String
attempt_pattern s = if ltb 1 s.total_attack_attempts then "repeated_attempts" else "single_attempt"

unfoldable pub line_of : ℕ → String → IpState → ActivityLine
unfolding attempt_pattern
line_of max_action_history ip_address s = record {
  ip = ip_address;
  state = record s { action_history = last_n max_action_history s.action_history };
  attempt_pattern = attempt_pattern s;
}

-- `_compact_file_if_needed`
unfoldable pub compact_file_if_needed : IpActivityTracker → IpActivityTracker
compact_file_if_needed t =
    if ltb t.records_since_compaction t.file_compaction_interval_records
    then t
    else if not t.file_readable
    then record t { records_since_compaction = 0 }
    else if leb (length t.file) t.max_file_entries
    then record t { records_since_compaction = 0 }
    else record t { records_since_compaction = 0; file = last_n t.max_file_entries t.file }

unfoldable pub record_activity :
    IpActivityTracker → String → String → String → Time → IpActivityTracker
unfolding note_activity prune_state line_of compact_file_if_needed
record_activity t ip_address attack_type action now =
    let s =
      note_activity t.max_action_history (or_fresh now (get t.state ip_address)) attack_type action
        now in
    compact_file_if_needed (record t {
      state = prune_state t.max_tracked_ips (put t.state ip_address s);
      file = t.file ++ line_of t.max_action_history ip_address s ∷ [];
      records_since_compaction = t.records_since_compaction + 1;
    })

-- `snapshot`
unfoldable pub snapshot : IpActivityTracker → List ActivityLine
unfolding line_of
snapshot t = map (λ (ip, s). line_of t.max_action_history ip s) t.state
