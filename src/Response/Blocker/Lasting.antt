-- ===== src/Response/Blocker/Lasting.antt =====
-- How long a block of response_engine/auto_blocker.py lasts, through what the blocker is asked meanwhile.
use smart_ids.Base.{
  string_eq, ◌==◌, ℕ, ◌≤◌, ◌<◌, ◌≡◌, refl, Bool, true, false, Option, String, arith, inl, inr,
  lt→ltb,
}
use smart_ids.Dict.{keys, IsDistinct}
use smart_ids.Packet.{Time}
use smart_ids.Response.Firewall.{FirewallAdapter}
use smart_ids.Response.Blocker.{
  AutoBlocker, block_end, expire_blocks, temp_block, manual_unblock, watchlist_ip, unwatchlist_ip,
  record_detection_activity, is_currently_blocked,
}
use smart_ids.Response.Blocker.Holding.{temp_block-until}
use smart_ids.Response.Blocker.Running.{temp_block-Keeps, is_currently_blocked-runs}
use smart_ids.Response.Blocker.Entries.{
  LastsTo, Lasts, expire_blocks-Lasts, same-Lasts, temp_block-Lasts, watchlist_ip-same,
  unwatchlist_ip-same, manual_unblock-Lasts,
}

module _ {S : Type 0} (adapter : FirewallAdapter S) (parse_ip : String → Option Bool) where
  -- What the blocker may be asked before `until`, where nobody asks for a block of `ip` that would
  -- end earlier, and nobody unblocks by hand.
  pub data Meanwhile (ip : String) (until : Time) (b : AutoBlocker S) : AutoBlocker S → Type 0 where
    started : Meanwhile ip until b b
    expired :
        {c : AutoBlocker S}
        → Meanwhile ip until b c
        → (now : Time) → now < until
        → Meanwhile ip until b (expire_blocks adapter now c)
    other_blocked :
        {c : AutoBlocker S}
        → Meanwhile ip until b c
        → (other : String) (duration_seconds : ℕ) (now : Time) → now < until
        → (other == ip) ≡ false
        → Meanwhile ip until b (temp_block adapter parse_ip c other duration_seconds now).0
    refreshed :
        {c : AutoBlocker S}
        → Meanwhile ip until b c
        → (duration_seconds : ℕ) (now : Time) → now < until
        → until ≤ block_end now duration_seconds
        → Meanwhile ip until b (temp_block adapter parse_ip c ip duration_seconds now).0
    watched :
        {c : AutoBlocker S}
        → Meanwhile ip until b c
        → (other attack_type action : String) (now : Time)
        → Meanwhile ip until b (record_detection_activity c other attack_type action now)
    listed :
        {c : AutoBlocker S}
        → Meanwhile ip until b c
        → (other : String) (now : Time) → Meanwhile ip until b (watchlist_ip parse_ip c other now).0
    unlisted :
        {c : AutoBlocker S}
        → Meanwhile ip until b c
        → (other : String) (now : Time) → Meanwhile ip until b (unwatchlist_ip c other now).0
    other_unblocked :
        {c : AutoBlocker S}
        → Meanwhile ip until b c
        → (other : String) (now : Time) → (other == ip) ≡ false
        → Meanwhile ip until b (manual_unblock adapter parse_ip c other now).0

  Meanwhile-Lasts :
      (ip : String) (until : Time) (b c : AutoBlocker S)
      → Lasts adapter parse_ip ip until b
      → Meanwhile ip until b c
      → Lasts adapter parse_ip ip until c
  unfolding record_detection_activity
  Meanwhile-Lasts ip until b _ x Meanwhile.started = x
  Meanwhile-Lasts ip until b _ x (Meanwhile.expired {c} m now before) =
      expire_blocks-Lasts adapter parse_ip ip until now c before (Meanwhile-Lasts ip until b c x m)
  Meanwhile-Lasts ip until b _ x
        (Meanwhile.other_blocked {c} m other duration_seconds now before apart) =
      temp_block-Lasts adapter parse_ip ip other until duration_seconds now c before (inl apart)
        (Meanwhile-Lasts ip until b c x m)
  Meanwhile-Lasts ip until b _ x (Meanwhile.refreshed {c} m duration_seconds now before long) =
      temp_block-Lasts adapter parse_ip ip ip until duration_seconds now c before (inr long)
        (Meanwhile-Lasts ip until b c x m)
  Meanwhile-Lasts ip until b _ x (Meanwhile.watched {c} m other attack_type action now) =
      same-Lasts adapter parse_ip ip until c _ refl (Meanwhile-Lasts ip until b c x m)
  Meanwhile-Lasts ip until b _ x (Meanwhile.listed {c} m other now) =
      same-Lasts adapter parse_ip ip until c _ (watchlist_ip-same adapter parse_ip c other now)
        (Meanwhile-Lasts ip until b c x m)
  Meanwhile-Lasts ip until b _ x (Meanwhile.unlisted {c} m other now) =
      same-Lasts adapter parse_ip ip until c _ (unwatchlist_ip-same adapter parse_ip c other now)
        (Meanwhile-Lasts ip until b c x m)
  Meanwhile-Lasts ip until b _ x (Meanwhile.other_unblocked {c} m other now apart) =
      manual_unblock-Lasts adapter parse_ip ip other until now c apart
        (Meanwhile-Lasts ip until b c x m)

  -- A block that `temp_block` reports, new or refreshed, lasts until its end: the address counts as
  -- blocked at every time before it, whatever the packet filter says, where the blocker was since then
  -- asked for nothing but these: at times before that end, to lift the blocks that have ended, to
  -- block other addresses, or to block this address again until the same time or longer; to unblock
  -- other addresses by hand; to note activities; and to put addresses on the watch list or to take
  -- them off it. At the start, the table of blocks has each address once.
  pub temp_block_lasts :
      (b c : AutoBlocker S) (ip : String) (duration_seconds : ℕ) (now later : Time)
      → IsDistinct (keys b.blocked_until)
      → (temp_block adapter parse_ip b ip duration_seconds now).1.0 ≡ true
      → Meanwhile ip
          (block_end now duration_seconds)
          (temp_block adapter parse_ip b ip duration_seconds now).0
          c
      → later < block_end now duration_seconds
      → is_currently_blocked adapter c ip later ≡ true
  unfolding LastsTo
  temp_block_lasts b c ip duration_seconds now later distinct ok meanwhile before =
      let until = block_end now duration_seconds in
      let x =
        Meanwhile-Lasts ip until (temp_block adapter parse_ip b ip duration_seconds now).0 c
          (record {
            distinct =
                (temp_block-Keeps adapter parse_ip b ip duration_seconds now distinct).distinct;
            entry = (
              until,
              temp_block-until adapter parse_ip b ip duration_seconds now ok,
              omega arith,
            );
          })
          meanwhile in
      let (end, e, long) = x.entry in
      is_currently_blocked-runs adapter c ip later
        (rw e (lt→ltb later end (omega (arith, before, long))))
