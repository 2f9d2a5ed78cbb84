-- ===== src/Response/Blocker/Entries.antt =====
-- The end of one block, through each operation of response_engine/auto_blocker.py.
use smart_ids.Base.{
  string_eq, ◌==◌, ℕ, ◌≤◌, ◌<◌, ◌≡◌, refl, sym, subst, Bool, false, Option, none, some, [], ◌∷◌,
  String, arith, ◌⊎◌, inl, inr, if◌then◌else◌, Bool-cases, Option-cases, tests,
}
use smart_ids.Dict.{
  Dict, get, keys, put, pop, contains, IsDistinct, get-put, get-pop, pop_all-IsDistinct, pop_all,
}
use smart_ids.Packet.{Time}
use smart_ids.Response.Firewall.{FirewallAdapter}
use smart_ids.Response.Blocker.{
  AutoBlocker, block_end, expire_blocks, is_valid_routable_ip, temp_block, manual_unblock,
  watchlist_ip, unwatchlist_ip, record_detection_activity, record_block,
}
use smart_ids.Response.Blocker.Effects.{
  is_expired, expire_blocks-Expires, expire_blocks_exact, temp_block-some,
}
use smart_ids.Response.Blocker.Running.{
  expire_blocks-Keeps, temp_block-Keeps, block_unexpired-until,
}

-- The entry of an address ends at `until` or later.
unfoldable pub LastsTo : Time → Option Time → Type 0
LastsTo until o = (end : Time) × (o ≡ some end) × (until ≤ end)

module _ {S : Type 0} (adapter : FirewallAdapter S) (parse_ip : String → Option Bool) where
  pub record Lasts (ip : String) (until : Time) (b : AutoBlocker S) : Type 0 where
    pub distinct : IsDistinct (keys b.blocked_until)
    pub entry : LastsTo until (get b.blocked_until ip)

  unexpired-LastsTo :
      (now until : Time) (o : Option Time)
      → now < until
      → LastsTo until o
      → LastsTo until (if is_expired now o then none else o)
  unfolding LastsTo
  unexpired-LastsTo now until o before (end, e, long) =
      let running : is_expired now o ≡ false = rw e (grind (arith, tests)) in
      rw running (end, e, long)

  pub expire_blocks-Lasts :
      (ip : String) (until now : Time) (b : AutoBlocker S)
      → now < until
      → Lasts ip until b
      → Lasts ip until (expire_blocks adapter now b)
  unfolding expire_blocks
  expire_blocks-Lasts ip until now b before x = record {
    distinct = (expire_blocks-Keeps adapter now b x.distinct).distinct;
    entry = elim (Option-cases b.firewall) [
      | inl e ↦ rw (expire_blocks, e) x.entry
      | inr (s, e) ↦
          subst (LastsTo until) (sym (expire_blocks_exact adapter now b s ip e x.distinct).0)
            (unexpired-LastsTo now until (get b.blocked_until ip) before x.entry)
    ];
  }

  pub same-Lasts :
      (ip : String) (until : Time) (b c : AutoBlocker S)
      → c.blocked_until ≡ b.blocked_until
      → Lasts ip until b
      → Lasts ip until c
  same-Lasts ip until b c e x = record {
    distinct = subst (λ t. IsDistinct (keys t)) (sym e) x.distinct;
    entry = subst (λ t. LastsTo until (get t ip)) (sym e) x.entry;
  }

  put-LastsTo :
      (ip j : String) (until end : Time) (t : Dict String Time)
      → ((j == ip) ≡ false) ⊎ (until ≤ end)
      → LastsTo until (get t ip)
      → LastsTo until (get (put t j end) ip)
  unfolding LastsTo
  put-LastsTo ip j until end t (inl other) h = rw (get-put t j ip end, other) h
  put-LastsTo ip j until end t (inr long) h =
      rw (get-put t j ip end)
        (elim (Bool-cases (j == ip)) [ inl e ↦ rw e (end, refl, long) | inr e ↦ rw e h ])

  pub temp_block-Lasts :
      (ip j : String) (until : Time) (duration_seconds : ℕ) (now : Time) (b : AutoBlocker S)
      → now < until
      → ((j == ip) ≡ false) ⊎ (until ≤ block_end now duration_seconds)
      → Lasts ip until b
      → Lasts ip until (temp_block adapter parse_ip b j duration_seconds now).0
  unfolding temp_block
  temp_block-Lasts ip j until duration_seconds now b before allowed x = record {
    distinct = (temp_block-Keeps adapter parse_ip b j duration_seconds now x.distinct).distinct;
    entry = elim (Option-cases b.firewall) [
      | inl e ↦ rw (temp_block, e) x.entry
      | inr (s, e) ↦
          rw (temp_block-some adapter parse_ip b s j duration_seconds now e)
            (elim (Bool-cases (is_valid_routable_ip parse_ip j)) [
              | inr bad ↦ rw bad x.entry
              | inl good ↦
                  let b1 = expire_blocks adapter now b in
                  let y = expire_blocks-Lasts ip until now b before x in
                  let (z, (s1, e1)) = expire_blocks-Expires adapter now b s e in
                  rw good (elim (block_unexpired-until adapter b1 s1 j duration_seconds now e1) [
                    | inl same ↦ subst (λ t. LastsTo until (get t ip)) (sym same) y.entry
                    | inr noted ↦
                        subst (λ t. LastsTo until (get t ip)) (sym noted)
                          (put-LastsTo ip j until (block_end now duration_seconds) b1.blocked_until
                            allowed y.entry)
                  ])
            ])
    ];
  }

  pub watchlist_ip-same :
      (b : AutoBlocker S) (ip : String) (now : Time)
      → (watchlist_ip parse_ip b ip now).0.blocked_until ≡ b.blocked_until
  unfolding watchlist_ip record_detection_activity
  watchlist_ip-same b ip now = elim (Bool-cases (is_valid_routable_ip parse_ip ip)) [
    | inl e ↦ rw e refl
    | inr e ↦ rw e refl
  ]

  pub unwatchlist_ip-same :
      (b : AutoBlocker S) (ip : String) (now : Time)
      → (unwatchlist_ip b ip now).0.blocked_until ≡ b.blocked_until
  unfolding unwatchlist_ip record_detection_activity
  unwatchlist_ip-same b ip now = elim (Bool-cases (contains ip b.watchlisted_ips)) [
    | inl e ↦ rw e refl
    | inr e ↦ rw e refl
  ]

  manual_unblock-tables :
      (b : AutoBlocker S) (ip : String) (now : Time)
      → ((manual_unblock adapter parse_ip b ip now).0.blocked_until ≡ b.blocked_until)
        ⊎ ((manual_unblock adapter parse_ip b ip now).0.blocked_until ≡ pop b.blocked_until ip)
  unfolding manual_unblock record_block record_detection_activity
  manual_unblock-tables b ip now = elim (Option-cases b.firewall) [
    | inl e ↦ rw (manual_unblock, e) (inl refl)
    | inr (s, e) ↦ elim (Bool-cases (is_valid_routable_ip parse_ip ip)) [
      | inr bad ↦ rw (manual_unblock, e, bad) (inl refl)
      | inl good ↦ elim (Bool-cases (adapter.unblock_ip s ip).1.0) [
        | inl ok ↦ rw (manual_unblock, e, good, ok) (inr refl)
        | inr failed ↦ rw (manual_unblock, e, good, failed) (inl refl)
      ]
    ]
  ]

  pub manual_unblock-Lasts :
      (ip j : String) (until now : Time) (b : AutoBlocker S)
      → (j == ip) ≡ false
      → Lasts ip until b
      → Lasts ip until (manual_unblock adapter parse_ip b j now).0
  unfolding pop pop_all
  manual_unblock-Lasts ip j until now b other x = elim (manual_unblock-tables b j now) [
    | inl same ↦ same-Lasts ip until b _ same x
    | inr popped ↦ record {
      distinct =
          subst (λ t. IsDistinct (keys t)) (sym popped)
            (pop_all-IsDistinct b.blocked_until (j ∷ []) x.distinct);
      entry =
          subst (λ t. LastsTo until (get t ip)) (sym popped)
            (rw (get-pop b.blocked_until j ip, other) x.entry);
    }
  ]
