-- ===== src/Response/Blocker/Effects.antt =====
-- What the operations of response_engine/auto_blocker.py do to the tables of the blocker.
use smart_ids.Base.{
  string_eq, ◌==◌, ℕ, ◌≡◌, refl, sym, subst, Bool, true, false, Option, none, some, List, [], ◌∷◌,
  String, leb, arith, if◌then◌else◌, Bool-cases, inl, inr, eq_iff,
}
use smart_ids.Dict.{Dict, contains, get, put, pop_all, keys, IsDistinct, get-pop_all, contains-keys}
use smart_ids.Packet.{Time}
use smart_ids.Response.Firewall.{FirewallAdapter}
use smart_ids.Response.Blocker.{
  AutoBlocker, record_detection_activity, record_block, expired_ips, block_end, expire_one,
  expire_all, expire_blocks, refresh_block, new_block, cooling_down, block_unexpired,
  is_valid_routable_ip, temp_block,
}

abbrev pub is_expired : Time → Option Time → Bool
is_expired now none = false
is_expired now (some until) = leb until now

contains-expired_ips :
    (now : Time) (d : Dict String Time) (ip : String)
    → IsDistinct (keys d)
    → contains ip (expired_ips now d) ≡ is_expired now (get d ip)
unfolding contains expired_ips get
contains-expired_ips now [] ip h = refl
contains-expired_ips now ((j, until) ∷ d) ip h = elim (Bool-cases (j == ip)) [
  | inl same ↦ ground (
    arith,
    contains-expired_ips now d ip h.1,
    contains-keys d ip,
    eq_iff j ip,
    h.0,
    ap_contains j ip,
  )
  | inr other ↦ ground (arith, contains-expired_ips now d ip h.1)
]
  where
    ap_contains : (j ip : String) → j ≡ ip → contains j (keys d) ≡ contains ip (keys d)
    ap_contains j ip p = λ i. contains (p i) (keys d)

-- The tables of `b'` are those of `b` without the addresses `ips`.
pub record Expires {S : Type 0} (b b' : AutoBlocker S) (ips : List String) : Type 0 where
  pub blocked_until : b'.blocked_until ≡ pop_all b.blocked_until ips
  pub last_block_time : b'.last_block_time ≡ pop_all b.last_block_time ips
  pub block_cooldown : b'.block_cooldown ≡ b.block_cooldown
  pub block_counts : b'.block_counts ≡ b.block_counts
  pub watchlisted_ips : b'.watchlisted_ips ≡ b.watchlisted_ips

module _ {S : Type 0} (adapter : FirewallAdapter S) where
  expire_all-Expires :
      (now : Time) (b : AutoBlocker S) (s : S) (ips : List String)
      → b.firewall ≡ some s
      → Expires b (expire_all adapter now b ips) ips
        × ((s' : S) × ((expire_all adapter now b ips).firewall ≡ some s'))
  unfolding expire_all expire_one pop_all
  expire_all-Expires now b s [] e = (
    record {
      blocked_until = refl;
      last_block_time = refl;
      block_cooldown = refl;
      block_counts = refl;
      watchlisted_ips = refl;
    },
    (s, e),
  )
  expire_all-Expires now b s (ip ∷ ips) e =
      let (rest, alive) =
        expire_all-Expires now (expire_one adapter now s b ip) (adapter.unblock_ip s ip).0 ips
          refl in
      subst
        (λ o.
          let next : AutoBlocker S = elim o [ none ↦ b | some t ↦ expire_one adapter now t b ip ] in
          Expires b (expire_all adapter now next ips) (ip ∷ ips)
          × ((s' : S) × ((expire_all adapter now next ips).firewall ≡ some s')))
        (sym e)
        (
          record {
            blocked_until = rest.blocked_until;
            last_block_time = rest.last_block_time;
            block_cooldown = rest.block_cooldown;
            block_counts = rest.block_counts;
            watchlisted_ips = rest.watchlisted_ips;
          },
          alive,
        )

  expire_blocks-some :
      (now : Time) (b : AutoBlocker S) (s : S)
      → b.firewall ≡ some s
      → expire_blocks adapter now b ≡ expire_all adapter now b (expired_ips now b.blocked_until)
  unfolding expire_blocks
  expire_blocks-some now b s e = ground (arith, e)

  pub expire_blocks-Expires :
      (now : Time) (b : AutoBlocker S) (s : S)
      → b.firewall ≡ some s
      → Expires b (expire_blocks adapter now b) (expired_ips now b.blocked_until)
        × ((s' : S) × ((expire_blocks adapter now b).firewall ≡ some s'))
  expire_blocks-Expires now b s e =
      rw (expire_blocks-some now b s e)
        (expire_all-Expires now b s (expired_ips now b.blocked_until) e)

  -- `expire_blocks` drops exactly the blocks that have ended, from both tables, and no other; it asks
  -- nothing of the adapter.
  pub expire_blocks_exact :
      (now : Time) (b : AutoBlocker S) (s : S) (ip : String)
      → b.firewall ≡ some s
      → IsDistinct (keys b.blocked_until)
      → (get (expire_blocks adapter now b).blocked_until ip
          ≡ (if is_expired now (get b.blocked_until ip) then none else get b.blocked_until ip))
        × (get (expire_blocks adapter now b).last_block_time ip
            ≡ (if is_expired now (get b.blocked_until ip) then none else get b.last_block_time ip))
  expire_blocks_exact now b s ip e d =
      let (x, alive) = expire_blocks-Expires now b s e in
      let ips = expired_ips now b.blocked_until in
      let found = contains-expired_ips now b.blocked_until ip d in
      (
        rw (x.blocked_until, ← found) (get-pop_all b.blocked_until ips ip),
        rw (x.last_block_time, ← found) (get-pop_all b.last_block_time ips ip),
      )

  pub block_unexpired-some :
      (b : AutoBlocker S) (s : S) (ip : String) (duration_seconds : ℕ) (now : Time)
      → b.firewall ≡ some s
      → block_unexpired adapter b ip duration_seconds now ≡ (
          if cooling_down b ip now
          then (b, (false, "cooldown_active"))
          else if adapter.is_blocked s ip
          then refresh_block b ip duration_seconds now
          else new_block adapter s b ip duration_seconds now)
  unfolding block_unexpired
  block_unexpired-some b s ip duration_seconds now e = ground (arith, e)

  pub new_block-tables :
      (s : S) (b : AutoBlocker S) (ip : String) (duration_seconds : ℕ) (now : Time)
      → (new_block adapter s b ip duration_seconds now).1.0 ≡ true
      → ((new_block adapter s b ip duration_seconds now).0.blocked_until
          ≡ put b.blocked_until ip (block_end now duration_seconds))
        × ((new_block adapter s b ip duration_seconds now).0.last_block_time
            ≡ put b.last_block_time ip now)
  unfolding new_block record_block record_detection_activity
  new_block-tables s b ip duration_seconds now h = ground arith

  pub refresh_block-tables :
      (b : AutoBlocker S) (ip : String) (duration_seconds : ℕ) (now : Time)
      → ((refresh_block b ip duration_seconds now).0.blocked_until
          ≡ put b.blocked_until ip (block_end now duration_seconds))
        × ((refresh_block b ip duration_seconds now).0.last_block_time
            ≡ put b.last_block_time ip now)
  unfolding refresh_block record_block record_detection_activity
  refresh_block-tables b ip duration_seconds now = (refl, refl)

  -- Where the rest of `temp_block` reports a block, both tables note it.
  pub block_unexpired-tables :
      (b : AutoBlocker S) (s : S) (ip : String) (duration_seconds : ℕ) (now : Time)
      → b.firewall ≡ some s
      → (block_unexpired adapter b ip duration_seconds now).1.0 ≡ true
      → ((block_unexpired adapter b ip duration_seconds now).0.blocked_until
          ≡ put b.blocked_until ip (block_end now duration_seconds))
        × ((block_unexpired adapter b ip duration_seconds now).0.last_block_time
            ≡ put b.last_block_time ip now)
  unfolding refresh_block
  block_unexpired-tables b s ip duration_seconds now e h = ground (
    arith,
    block_unexpired-some b s ip duration_seconds now e,
    new_block-tables s b ip duration_seconds now,
    refresh_block-tables b ip duration_seconds now,
  )

  module _ (parse_ip : String → Option Bool) where
    pub temp_block-some :
        (b : AutoBlocker S) (s : S) (ip : String) (duration_seconds : ℕ) (now : Time)
        → b.firewall ≡ some s
        → temp_block adapter parse_ip b ip duration_seconds now ≡ (
            if is_valid_routable_ip parse_ip ip
            then block_unexpired adapter (expire_blocks adapter now b) ip duration_seconds now
            else (b, (false, "invalid_or_loopback_ip")))
    unfolding temp_block
    temp_block-some b s ip duration_seconds now e = ground (arith, e)
