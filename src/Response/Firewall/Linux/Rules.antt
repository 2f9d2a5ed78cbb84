-- ===== src/Response/Firewall/Linux/Rules.antt =====
-- What the Linux adapter does to the rules of the packet filter.
use smart_ids.Base.{
  string_eq, pair_eq, ◌==◌, String, Bool, ◌≡◌, ap, ◌∙◌, List, [], ◌∷◌, ◌++◌, if◌then◌else◌,
  Bool-cases, inl, inr,
}
use smart_ids.Dict.{contains}
use smart_ids.Response.Firewall.Linux.{iptables, block_ip, unblock_ip, is_blocked, linux_adapter}

-- A rule is its chain, the source that it is about, and its target. This one drops what comes in
-- from the address.
abbrev pub drop_from : String → String × (String × String)
drop_from ip = ("INPUT", (ip, "DROP"))

-- Without the first such rule.
unfoldable pub without_first :
    String × (String × String)
    → List (String × (String × String))
    → List (String × (String × String))
without_first r [] = []
without_first r (x ∷ xs) = let rest = without_first r xs in if x == r then xs else x ∷ rest

-- The documented behaviour of `iptables` on the rules of a packet filter, for any chain, source and
-- target: a check says whether such a rule is there and changes nothing, `-A` appends the rule to
-- the end and `-D` deletes the first one like it, and a command that fails changes nothing.
pub record Iptables {S : Type 0} (run : S → List String → S × Bool)
    (rules : S → List (String × (String × String))) : Type 0 where
  pub check :
      (s : S) (chain ip target : String)
      → (run s ("iptables" ∷ "-C" ∷ chain ∷ "-s" ∷ ip ∷ "-j" ∷ target ∷ [])).1
        ≡ contains (chain, (ip, target)) (rules s)
  pub check_keeps :
      (s : S) (chain ip target : String)
      → (run s ("iptables" ∷ "-C" ∷ chain ∷ "-s" ∷ ip ∷ "-j" ∷ target ∷ [])).0 ≡ s
  pub append :
      (s : S) (chain ip target : String)
      → (let (after, ok) = run s ("iptables" ∷ "-A" ∷ chain ∷ "-s" ∷ ip ∷ "-j" ∷ target ∷ []) in
          rules after ≡ (if ok then rules s ++ (chain, (ip, target)) ∷ [] else rules s))
  pub delete :
      (s : S) (chain ip target : String)
      → (let (after, ok) = run s ("iptables" ∷ "-D" ∷ chain ∷ "-s" ∷ ip ∷ "-j" ∷ target ∷ []) in
          rules after ≡ (if ok then without_first (chain, (ip, target)) (rules s) else rules s))

module _ {S : Type 0} (run : S → List String → S × Bool)
    (rules : S → List (String × (String × String))) (laws : Iptables run rules) where
  blocked_exact : (s : S) (ip : String) → is_blocked run s ip ≡ contains (drop_from ip) (rules s)
  unfolding is_blocked
  blocked_exact s ip = laws.check s "INPUT" ip "DROP"

  block_ip_exact :
      (s : S) (ip : String)
      → rules (block_ip run s ip).0 ≡ (
          if contains (drop_from ip) (rules s)
          then rules s
          else if (block_ip run s ip).1.0
          then rules s ++ drop_from ip ∷ []
          else rules s)
  unfolding block_ip iptables
  block_ip_exact s ip =
      let found = laws.check s "INPUT" ip "DROP" in
      let same = laws.check_keeps s "INPUT" ip "DROP" in
      let added = laws.append s "INPUT" ip "DROP" in
      let appended = run s ("iptables" ∷ "-A" ∷ "INPUT" ∷ "-s" ∷ ip ∷ "-j" ∷ "DROP" ∷ []) in
      let choose = λ (b : Bool). (if b then rules s ++ drop_from ip ∷ [] else rules s) in
      elim (Bool-cases (contains (drop_from ip) (rules s))) [
        | inl e ↦ rw (block_ip, found ∙ e, e) (ap rules same)
        | inr e ↦ elim (Bool-cases appended.1) [
          | inl g ↦ rw (block_ip, found ∙ e, e, same, g) (added ∙ ap choose g)
          | inr g ↦ rw (block_ip, found ∙ e, e, same, g) (added ∙ ap choose g)
        ]
      ]

  unblock_ip_exact :
      (s : S) (ip : String)
      → rules (unblock_ip run s ip).0
        ≡ (if (unblock_ip run s ip).1.0 then without_first (drop_from ip) (rules s) else rules s)
  unfolding unblock_ip iptables
  unblock_ip_exact s ip =
      let deleted = laws.delete s "INPUT" ip "DROP" in
      let left = run s ("iptables" ∷ "-D" ∷ "INPUT" ∷ "-s" ∷ ip ∷ "-j" ∷ "DROP" ∷ []) in
      let choose = λ (b : Bool). (if b then without_first (drop_from ip) (rules s) else rules s) in
      elim (Bool-cases left.1) [
        | inl g ↦ rw (unblock_ip, g) (deleted ∙ ap choose g)
        | inr g ↦ rw (unblock_ip, g) (deleted ∙ ap choose g)
      ]

  -- Given what `iptables` documents, the Linux adapter says that an address is blocked exactly when the packet filter has the rule that
  -- drops what comes in from it. A call to block appends that rule, unless it is there already or
  -- the call reports a failure, a call to unblock that reports success takes the first such rule
  -- away, and neither does anything to any other rule.
  pub linux_adapter_exact :
      (s : S) (ip : String)
      → (let adapter = linux_adapter run in
          ((adapter.is_blocked s ip) ≡ contains (drop_from ip) (rules s))
          × (rules (adapter.block_ip s ip).0 ≡ (
              if contains (drop_from ip) (rules s)
              then rules s
              else if (adapter.block_ip s ip).1.0
              then rules s ++ drop_from ip ∷ []
              else rules s))
          × (rules (adapter.unblock_ip s ip).0 ≡ (
              if (adapter.unblock_ip s ip).1.0
              then without_first (drop_from ip) (rules s)
              else rules s)))
  unfolding linux_adapter
  linux_adapter_exact s ip = (blocked_exact s ip, block_ip_exact s ip, unblock_ip_exact s ip)
