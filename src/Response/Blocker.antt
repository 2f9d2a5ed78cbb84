-- ===== src/Response/Blocker.antt =====
-- response_engine/auto_blocker.py. `now` is what `time.time()` returns in a call; the blocker's own
-- log lines are left out, the block records and the activity records are kept.
pub mod Effects
pub mod Holding
pub mod Running
pub mod Entries
pub mod Lasting
use smart_ids.Base.{
  string_eq, ◌==◌, ℕ, ◌+◌, ◌-◌, ◌*◌, Bool, true, false, Option, none, some, List, [], ◌∷◌, ◌++◌,
  String, ltb, leb, max, not, if◌then◌else◌,
}
use smart_ids.Dict.{Dict, contains, add, discard, get, get_or, put, pop}
use smart_ids.Packet.{Time, second}
use smart_ids.Response.Firewall.{FirewallAdapter}
use smart_ids.Response.Activity.{IpActivityTracker, record_activity}

-- An event of block_records.py (`BlockRecordStore.append_event`).
pub record BlockRecord : Type 0 where
  pub ip : String
  pub status : String
  pub duration_seconds : ℕ
  pub blocked_until : Option Time
  pub times_blocked : ℕ
  pub current_status : String

pub record AutoBlocker (S : Type 0) : Type 0 where
  pub firewall : Option S
  pub block_cooldown : Time
  pub last_block_time : Dict String Time
  pub blocked_until : Dict String Time
  pub block_counts : Dict String ℕ
  pub watchlisted_ips : List String
  pub record_store : List BlockRecord
  pub activity_tracker : IpActivityTracker

-- `__init__`
unfoldable pub init : {S : Type 0} → Option S → IpActivityTracker → AutoBlocker S
init firewall tracker = record {
  firewall = firewall;
  block_cooldown = 60 * second;
  last_block_time = [];
  blocked_until = [];
  block_counts = [];
  watchlisted_ips = [];
  record_store = [];
  activity_tracker = tracker;
}

abbrev pub Reply : Type 0
Reply = Bool × String

-- `[ip for ip, until in self._blocked_until.items() if now >= until]`
unfoldable pub expired_ips : Time → Dict String Time → List String
expired_ips now [] = []
expired_ips now ((ip, until) ∷ rest) =
    let others = expired_ips now rest in if leb until now then ip ∷ others else others

abbrev pub block_end : Time → ℕ → Time
block_end now duration_seconds = now + max 1 duration_seconds * second

-- `_is_valid_routable_ip`: `ipaddress.ip_address` is a parameter that returns, for a text that is an
-- address, whether it is a loopback address.
unfoldable pub is_valid_routable_ip : (String → Option Bool) → String → Bool
is_valid_routable_ip parse_ip ip_address = elim (parse_ip ip_address) [
  | none ↦ false
  | some is_loopback ↦ not is_loopback
]

module _ {S : Type 0} where
  unfoldable pub record_detection_activity :
      AutoBlocker S → String → String → String → Time → AutoBlocker S
  record_detection_activity b ip_address attack_type action timestamp = record b {
    activity_tracker = record_activity b.activity_tracker ip_address attack_type action timestamp;
  }

  -- `_record`
  unfoldable pub record_block : AutoBlocker S → Time → String → String → ℕ → AutoBlocker S
  unfolding get_or
  record_block b now status ip_address duration_seconds = record b {
    record_store =
        b.record_store
        ++ record {
          ip = ip_address;
          status = status;
          duration_seconds = duration_seconds;
          blocked_until =
              if ltb 0 duration_seconds then some (now + duration_seconds * second) else none;
          times_blocked = get_or b.block_counts ip_address 0;
          current_status = if ltb 0 duration_seconds then "blocked" else "unblocked";
        }
          ∷ [];
  }

  unfoldable pub unwatchlist_ip : AutoBlocker S → String → Time → AutoBlocker S × Reply
  unfolding record_detection_activity
  unwatchlist_ip b ip_address now =
      if contains ip_address b.watchlisted_ips
      then (
        record_detection_activity
            (record b { watchlisted_ips = discard ip_address b.watchlisted_ips }) ip_address
            "watchlist_action" "unwatchlisted" now,
        (true, "unwatchlisted"),
      )
      else (b, (false, "not_watchlisted"))

  unfoldable pub is_watchlisted : AutoBlocker S → String → Bool
  is_watchlisted b ip_address = contains ip_address b.watchlisted_ips

  -- The part of `temp_block` under `if self.firewall.is_blocked(ip_address)`.
  unfoldable pub refresh_block : AutoBlocker S → String → ℕ → Time → AutoBlocker S × Reply
  unfolding record_block record_detection_activity
  refresh_block b ip_address duration_seconds now =
      let b1 = record b {
        last_block_time = put b.last_block_time ip_address now;
        blocked_until = put b.blocked_until ip_address (block_end now duration_seconds);
      } in
      let b2 = record_block b1 now "already_blocked" ip_address duration_seconds in
      (
        record_detection_activity b2 ip_address "already_blocked_activity" "blocked" now,
        (true, "already_blocked"),
      )

  -- `last_time is not None and (now - last_time) < self.block_cooldown_seconds`
  unfoldable pub cooling_down : AutoBlocker S → String → Time → Bool
  cooling_down b ip_address now = elim (get b.last_block_time ip_address) [
    | none ↦ false
    | some last_time ↦ ltb (now - last_time) b.block_cooldown
  ]

  unfoldable pub watchlist_ip :
      (String → Option Bool) → AutoBlocker S → String → Time → AutoBlocker S × Reply
  unfolding is_valid_routable_ip record_detection_activity
  watchlist_ip parse_ip b ip_address now =
      if is_valid_routable_ip parse_ip ip_address
      then (
        record_detection_activity (record b { watchlisted_ips = add ip_address b.watchlisted_ips })
            ip_address "watchlist_action" "watchlisted" now,
        (true, "watchlisted"),
      )
      else (b, (false, "invalid_or_loopback_ip"))

module _ {S : Type 0} (adapter : FirewallAdapter S) where
  -- The body of the loop of `expire_blocks`.
  unfoldable pub expire_one : Time → S → AutoBlocker S → String → AutoBlocker S
  unfolding record_block record_detection_activity
  expire_one now s b ip_address =
      let (s', reply) = adapter.unblock_ip s ip_address in
      let b1 = record b { firewall = some s' } in
      let b2 = record_block b1 now (if reply.0 then "unblocked" else reply.1) ip_address 0 in
      let b3 =
        record_detection_activity b2 ip_address "unblock_action"
          (if reply.0 then "unblocked" else "unblock_failed") now in
      record b3 {
        blocked_until = pop b.blocked_until ip_address;
        last_block_time = pop b.last_block_time ip_address;
      }

  unfoldable pub expire_all : Time → AutoBlocker S → List String → AutoBlocker S
  unfolding expire_one
  expire_all now b [] = b
  expire_all now b (ip ∷ rest) =
      expire_all now (elim b.firewall [ none ↦ b | some s ↦ expire_one now s b ip ]) rest

  unfoldable pub expire_blocks : Time → AutoBlocker S → AutoBlocker S
  unfolding expire_all expired_ips
  expire_blocks now b = elim b.firewall [
    | none ↦ b
    | some s ↦ expire_all now b (expired_ips now b.blocked_until)
  ]

  unfoldable pub is_currently_blocked : AutoBlocker S → String → Time → Bool
  is_currently_blocked b ip_address now =
      let filtered : Bool = elim b.firewall [
        | none ↦ false
        | some s ↦ adapter.is_blocked s ip_address
      ] in
      elim (get b.blocked_until ip_address) [
        | none ↦ filtered
        | some until ↦ if ltb now until then true else filtered
      ]

  -- The rest of `temp_block`, where `s` is the state of the packet filter.
  unfoldable pub new_block : S → AutoBlocker S → String → ℕ → Time → AutoBlocker S × Reply
  unfolding record_block record_detection_activity get_or
  new_block s b ip_address duration_seconds now =
      let (s', reply) = adapter.block_ip s ip_address in
      let b0 = record b { firewall = some s' } in
      if reply.0
      then (let b1 = record b0 {
        last_block_time = put b.last_block_time ip_address now;
        blocked_until = put b.blocked_until ip_address (block_end now duration_seconds);
        block_counts = put b.block_counts ip_address (get_or b.block_counts ip_address 0 + 1);
      } in
          let b2 = record_block b1 now reply.1 ip_address duration_seconds in
          (record_detection_activity b2 ip_address "block_action" "blocked" now, reply))
      else (b0, reply)

  -- What `temp_block` does once the address is checked and old blocks are expired.
  unfoldable pub block_unexpired : AutoBlocker S → String → ℕ → Time → AutoBlocker S × Reply
  unfolding cooling_down refresh_block new_block
  block_unexpired b ip_address duration_seconds now =
      if cooling_down b ip_address now then (b, (false, "cooldown_active")) else elim b.firewall [
        | none ↦ (b, (false, "unsupported_platform"))
        | some s ↦
            if adapter.is_blocked s ip_address
            then refresh_block b ip_address duration_seconds now
            else new_block s b ip_address duration_seconds now
      ]

  module _ (parse_ip : String → Option Bool) where
    unfoldable pub temp_block : AutoBlocker S → String → ℕ → Time → AutoBlocker S × Reply
    unfolding is_valid_routable_ip expire_blocks block_unexpired
    temp_block b ip_address duration_seconds now = elim b.firewall [
      | none ↦ (b, (false, "unsupported_platform"))
      | some s ↦
          if is_valid_routable_ip parse_ip ip_address
          then block_unexpired (expire_blocks now b) ip_address duration_seconds now
          else (b, (false, "invalid_or_loopback_ip"))
    ]

    unfoldable pub manual_block : AutoBlocker S → String → ℕ → Time → AutoBlocker S × Reply
    unfolding temp_block
    manual_block = temp_block

    unfoldable pub manual_unblock : AutoBlocker S → String → Time → AutoBlocker S × Reply
    unfolding is_valid_routable_ip record_block record_detection_activity
    manual_unblock b ip_address now = elim b.firewall [
      | none ↦ (b, (false, "unsupported_platform"))
      | some s ↦
          if is_valid_routable_ip parse_ip ip_address
          then (let (s', reply) = adapter.unblock_ip s ip_address in
              let b0 = record b { firewall = some s' } in
              if reply.0
              then (let b1 = record b0 {
                blocked_until = pop b.blocked_until ip_address;
                last_block_time = pop b.last_block_time ip_address;
              } in
                  let b2 = record_block b1 now "unblocked" ip_address 0 in
                  (record_detection_activity b2 ip_address "manual_unblock" "unblocked" now, reply))
              else (b0, reply))
          else (b, (false, "invalid_or_loopback_ip"))
    ]
