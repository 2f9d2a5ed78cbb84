-- ===== src/Response/Blocker/Holding.antt =====
-- Guarantees of `temp_block` of response_engine/auto_blocker.py.
use smart_ids.Base.{
  string_eq, ℕ, ◌≡◌, refl, ◌∙◌, Bool, true, Option, some, String, arith, Bool-cases, inl, inr,
}
use smart_ids.Dict.{
  get, keys, IsDistinct, get-put_self, keys-put, add-IsDistinct, pop_all-IsDistinct,
}
use smart_ids.Packet.{Time}
use smart_ids.Response.Firewall.{FirewallAdapter}
use smart_ids.Response.Blocker.{
  AutoBlocker, Reply, expired_ips, block_end, expire_blocks, refresh_block, new_block, cooling_down,
  block_unexpired, is_valid_routable_ip, temp_block, record_block, record_detection_activity,
}
use smart_ids.Response.Blocker.Effects.{
  expire_blocks-Expires, block_unexpired-some, block_unexpired-tables, temp_block-some,
}

-- The rest of `temp_block` keeps the packet filter available and the cooldown as it is.
module _ {S : Type 0} (adapter : FirewallAdapter S) where
  block_unexpired-settings :
      (b : AutoBlocker S) (s : S) (ip : String) (duration_seconds : ℕ) (now : Time)
      → b.firewall ≡ some s
      → ((s' : S) × ((block_unexpired adapter b ip duration_seconds now).0.firewall ≡ some s'))
        × ((block_unexpired adapter b ip duration_seconds now).0.block_cooldown ≡ b.block_cooldown)
  unfolding refresh_block new_block record_block record_detection_activity
  block_unexpired-settings b s ip duration_seconds now e =
      rw (block_unexpired-some adapter b s ip duration_seconds now e)
        (elim (Bool-cases (cooling_down b ip now)) [
          | inl cooling ↦ rw cooling ((s, e), refl)
          | inr ready ↦ elim (Bool-cases (adapter.is_blocked s ip)) [
            | inl old ↦ rw (ready, old) ((s, e), refl)
            | inr new ↦ elim (Bool-cases (adapter.block_ip s ip).1.0) [
              | inl ok ↦ rw (ready, new, ok) (((adapter.block_ip s ip).0, refl), refl)
              | inr failed ↦ rw (ready, new, failed) (((adapter.block_ip s ip).0, refl), refl)
            ]
          ]
        ])

  module _ (parse_ip : String → Option Bool) where
    abbrev after : AutoBlocker S → String → ℕ → Time → AutoBlocker S × Reply
    after = temp_block adapter parse_ip

    -- What a block that was reported leaves behind.
    record Blocked (b b' : AutoBlocker S) (ip : String) (until now : Time) : Type 0 where
      filter : (s : S) × (b'.firewall ≡ some s)
      routable : is_valid_routable_ip parse_ip ip ≡ true
      until_noted : get b'.blocked_until ip ≡ some until
      time_noted : get b'.last_block_time ip ≡ some now
      cooldown : b'.block_cooldown ≡ b.block_cooldown
      distinct : IsDistinct (keys b.blocked_until) → IsDistinct (keys b'.blocked_until)

    module _ (b : AutoBlocker S) (ip : String) (duration_seconds : ℕ) (now : Time)
        (ok : (after b ip duration_seconds now).1.0 ≡ true) where
      firewall-some : (s : S) × (b.firewall ≡ some s)
      unfolding temp_block
      firewall-some = ground (arith, ok)

      routable-true : is_valid_routable_ip parse_ip ip ≡ true
      routable-true =
          let (s, e) = firewall-some in
          ground (arith, ok, temp_block-some adapter parse_ip b s ip duration_seconds now e)

      temp_block-Blocked :
          Blocked b (after b ip duration_seconds now).0 ip (block_end now duration_seconds) now
      temp_block-Blocked =
          let (s, e) = firewall-some in
          let same = temp_block-some adapter parse_ip b s ip duration_seconds now e in
          let (x, (s1, e1)) = expire_blocks-Expires adapter now b s e in
          let b1 = expire_blocks adapter now b in
          let same1 : after b ip duration_seconds now
              ≡ block_unexpired adapter b1 ip duration_seconds now =
            ground (arith, same, routable-true) in
          let ok1 : (block_unexpired adapter b1 ip duration_seconds now).1.0 ≡ true =
            rw (← same1) ok in
          let (u, t) = block_unexpired-tables adapter b1 s1 ip duration_seconds now e1 ok1 in
          let (f, c) = block_unexpired-settings b1 s1 ip duration_seconds now e1 in
          rw same1 (record {
            filter = f;
            routable = routable-true;
            until_noted = rw u (get-put_self b1.blocked_until ip (block_end now duration_seconds));
            time_noted = rw t (get-put_self b1.last_block_time ip now);
            cooldown = c ∙ x.block_cooldown;
            distinct = λ d.
                rw (u, keys-put)
                  (add-IsDistinct ip (keys b1.blocked_until) (
                    rw x.blocked_until
                      (pop_all-IsDistinct b.blocked_until (expired_ips now b.blocked_until) d)));
          })

      pub temp_block-until :
          get (after b ip duration_seconds now).0.blocked_until ip
          ≡ some (block_end now duration_seconds)
      temp_block-until = temp_block-Blocked.until_noted
