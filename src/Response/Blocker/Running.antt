-- ===== src/Response/Blocker/Running.antt =====
-- Blocks that run: no operation of response_engine/auto_blocker.py that blocks or expires ends one
-- before its time.
use smart_ids.Base.{
  string_eq, ◌==◌, ℕ, ◌≡◌, refl, sym, subst, Bool, true, false, Option, none, some, String, ltb,
  arith, ◌⊎◌, inl, inr, if◌then◌else◌, Bool-cases, Option-cases, tests,
}
use smart_ids.Dict.{
  get, keys, put, IsDistinct, get-put, keys-put, add-IsDistinct, pop_all-IsDistinct,
}
use smart_ids.Packet.{Time}
use smart_ids.Response.Firewall.{FirewallAdapter}
use smart_ids.Response.Blocker.{
  AutoBlocker, expired_ips, block_end, expire_blocks, cooling_down, block_unexpired,
  is_valid_routable_ip, temp_block, record_detection_activity, new_block, is_currently_blocked,
}
use smart_ids.Response.Blocker.Effects.{
  is_expired, expire_blocks-Expires, expire_blocks_exact, block_unexpired-some, temp_block-some,
  new_block-tables, refresh_block-tables,
}
use smart_ids.Response.Blocker.Holding.{temp_block-until}

-- The blocker notes a block of the address that ends after `now`.
abbrev pub runs_at : Time → Option Time → Bool
runs_at now none = false
runs_at now (some until) = ltb now until

-- The second blocker has every running block of the first.
pub record Keeps {S : Type 0} (now : Time) (b b' : AutoBlocker S) : Type 0 where
  pub distinct : IsDistinct (keys b'.blocked_until)
  pub running :
      (ip : String)
      → runs_at now (get b.blocked_until ip) ≡ true
      → runs_at now (get b'.blocked_until ip) ≡ true

runs-unexpired :
    (now : Time) (o : Option Time)
    → runs_at now o ≡ true
    → runs_at now (if is_expired now o then none else o) ≡ true
runs-unexpired now none h = ground (arith, h)
runs-unexpired now (some until) h = grind (arith, tests, h)

runs-put :
    (now until : Time) (ip j : String) (o : Option Time)
    → runs_at now (some until) ≡ true
    → runs_at now o ≡ true
    → runs_at now (if ip == j then some until else o) ≡ true
runs-put now until ip j o h k = elim (Bool-cases (ip == j)) [ inl e ↦ rw e h | inr e ↦ rw e k ]

block_end-runs :
    (now : Time) (duration_seconds : ℕ) → runs_at now (some (block_end now duration_seconds)) ≡ true
block_end-runs now duration_seconds = grind (arith, tests)

module _ {S : Type 0} where
  pub Keeps-same :
      (now : Time) (b b' : AutoBlocker S)
      → IsDistinct (keys b.blocked_until)
      → b'.blocked_until ≡ b.blocked_until
      → Keeps now b b'
  Keeps-same now b b' d e = record {
    distinct = subst (λ t. IsDistinct (keys t)) (sym e) d;
    running = λ ip h. subst (λ t. runs_at now (get t ip) ≡ true) (sym e) h;
  }

  Keeps-put :
      (now : Time) (b b' : AutoBlocker S) (ip : String) (duration_seconds : ℕ)
      → IsDistinct (keys b.blocked_until)
      → b'.blocked_until ≡ put b.blocked_until ip (block_end now duration_seconds)
      → Keeps now b b'
  Keeps-put now b b' ip duration_seconds d e =
      let until = block_end now duration_seconds in
      record {
        distinct =
            subst (λ t. IsDistinct (keys t)) (sym e)
              (subst IsDistinct (sym (keys-put b.blocked_until ip until))
                (add-IsDistinct ip (keys b.blocked_until) d));
        running = λ j h.
            subst (λ t. runs_at now (get t j) ≡ true) (sym e)
              (subst (λ o. runs_at now o ≡ true) (sym (get-put b.blocked_until ip j until))
                (runs-put now until ip j (get b.blocked_until j)
                  (block_end-runs now duration_seconds) h));
      }

  pub Keeps-trans :
      (now : Time) (a b c : AutoBlocker S) → Keeps now a b → Keeps now b c → Keeps now a c
  Keeps-trans now a b c h k = record {
    distinct = k.distinct;
    running = λ ip r. k.running ip (h.running ip r);
  }

  pub Keeps-note :
      (now : Time) (b : AutoBlocker S) (ip attack_type action : String) (timestamp : Time)
      → IsDistinct (keys b.blocked_until)
      → Keeps now b (record_detection_activity b ip attack_type action timestamp)
  unfolding record_detection_activity
  Keeps-note now b ip attack_type action timestamp d = Keeps-same now b _ d refl

module _ {S : Type 0} (adapter : FirewallAdapter S) where
  pub expire_blocks-Keeps :
      (now : Time) (b : AutoBlocker S)
      → IsDistinct (keys b.blocked_until)
      → Keeps now b (expire_blocks adapter now b)
  unfolding expire_blocks
  expire_blocks-Keeps now b d = elim (Option-cases b.firewall) [
    | inl e ↦ Keeps-same now b _ d (ground (arith, e))
    | inr (s, e) ↦
        let (x, alive) = expire_blocks-Expires adapter now b s e in
        record {
          distinct =
              subst (λ t. IsDistinct (keys t)) (sym x.blocked_until)
                (pop_all-IsDistinct b.blocked_until (expired_ips now b.blocked_until) d);
          running = λ ip h.
              subst (λ o. runs_at now o ≡ true) (sym (expire_blocks_exact adapter now b s ip e d).0)
                (runs-unexpired now (get b.blocked_until ip) h);
        }
  ]

  -- What the rest of `temp_block` does to the table of blocks: nothing, or it notes this one.
  pub block_unexpired-until :
      (b : AutoBlocker S) (s : S) (ip : String) (duration_seconds : ℕ) (now : Time)
      → b.firewall ≡ some s
      → ((block_unexpired adapter b ip duration_seconds now).0.blocked_until ≡ b.blocked_until)
        ⊎ ((block_unexpired adapter b ip duration_seconds now).0.blocked_until
            ≡ put b.blocked_until ip (block_end now duration_seconds))
  unfolding new_block
  block_unexpired-until b s ip duration_seconds now e =
      rw (block_unexpired-some adapter b s ip duration_seconds now e)
        (elim (Bool-cases (cooling_down b ip now)) [
          | inl cooling ↦ rw cooling (inl refl)
          | inr ready ↦ elim (Bool-cases (adapter.is_blocked s ip)) [
            | inl old ↦
                rw (ready, old) (inr (refresh_block-tables adapter b ip duration_seconds now).0)
            | inr new ↦ elim (Bool-cases (adapter.block_ip s ip).1.0) [
              | inl ok ↦
                  rw (ready, new)
                    (inr (new_block-tables adapter s b ip duration_seconds now (rw ok refl)).0)
              | inr failed ↦ rw (ready, new, failed) (inl refl)
            ]
          ]
        ])

  module _ (parse_ip : String → Option Bool) where
    pub temp_block-Keeps :
        (b : AutoBlocker S) (ip : String) (duration_seconds : ℕ) (now : Time)
        → IsDistinct (keys b.blocked_until)
        → Keeps now b (temp_block adapter parse_ip b ip duration_seconds now).0
    unfolding temp_block
    temp_block-Keeps b ip duration_seconds now d = elim (Option-cases b.firewall) [
      | inl e ↦ Keeps-same now b _ d (ground (arith, e))
      | inr (s, e) ↦
          rw (temp_block-some adapter parse_ip b s ip duration_seconds now e)
            (elim (Bool-cases (is_valid_routable_ip parse_ip ip)) [
              | inr bad ↦ rw bad (Keeps-same now b b d refl)
              | inl good ↦
                  let b1 = expire_blocks adapter now b in
                  let k = expire_blocks-Keeps now b d in
                  let (x, (s1, e1)) = expire_blocks-Expires adapter now b s e in
                  let b2 = (block_unexpired adapter b1 ip duration_seconds now).0 in
                  rw good (
                    Keeps-trans now b b1 b2 k
                      (elim (block_unexpired-until b1 s1 ip duration_seconds now e1) [
                        | inl same ↦ Keeps-same now b1 b2 k.distinct same
                        | inr noted ↦ Keeps-put now b1 b2 ip duration_seconds k.distinct noted
                      ]))
            ])
    ]

    pub temp_block-runs :
        (b : AutoBlocker S) (ip : String) (duration_seconds : ℕ) (now : Time)
        → (temp_block adapter parse_ip b ip duration_seconds now).1.0 ≡ true
        → runs_at now
            (get (temp_block adapter parse_ip b ip duration_seconds now).0.blocked_until ip)
          ≡ true
    temp_block-runs b ip duration_seconds now ok =
        subst (λ o. runs_at now o ≡ true)
          (sym (temp_block-until adapter parse_ip b ip duration_seconds now ok))
          (block_end-runs now duration_seconds)

  -- A block that runs counts as one, whatever the packet filter says.
  pub is_currently_blocked-runs :
      (b : AutoBlocker S) (ip : String) (now : Time)
      → runs_at now (get b.blocked_until ip) ≡ true
      → is_currently_blocked adapter b ip now ≡ true
  unfolding is_currently_blocked
  is_currently_blocked-runs b ip now h = elim (Option-cases (get b.blocked_until ip)) [
    | inl e ↦ ground (arith, e, h)
    | inr (until, e) ↦ ground (arith, e, h)
  ]
