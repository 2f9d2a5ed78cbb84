-- ===== src/Response/Firewall/Linux.antt =====
-- response_engine/firewall/linux_adapter.py over `iptables`.
pub mod Rules
use smart_ids.Base.{string_eq, String, Bool, true, false, List, [], ◌∷◌, if◌then◌else◌}
use smart_ids.Response.Firewall.{FirewallAdapter}

-- `["iptables", flag, "INPUT", "-s", ip_address, "-j", "DROP"]`
unfoldable pub iptables : String → String → List String
iptables flag ip_address = "iptables" ∷ flag ∷ "INPUT" ∷ "-s" ∷ ip_address ∷ "-j" ∷ "DROP" ∷ []

-- `_run`: whether the command ended with status 0, and the packet filter that it leaves.
module _ {S : Type 0} (run : S → List String → S × Bool) where
  unfoldable pub block_ip : S → String → S × (Bool × String)
  unfolding iptables
  block_ip s ip_address =
      let (checked, exists) = run s (iptables "-C" ip_address) in
      if exists
      then (checked, (true, "already_blocked"))
      else (let (appended, added) = run checked (iptables "-A" ip_address) in
          if added then (appended, (true, "blocked")) else (appended, (false, "block_failed")))

  unfoldable pub unblock_ip : S → String → S × (Bool × String)
  unfolding iptables
  unblock_ip s ip_address =
      let (left, deleted) = run s (iptables "-D" ip_address) in
      if deleted then (left, (true, "unblocked")) else (left, (false, "unblock_failed"))

  unfoldable pub is_blocked : S → String → Bool
  unfolding iptables
  is_blocked s ip_address = (run s (iptables "-C" ip_address)).1

  unfoldable pub linux_adapter : FirewallAdapter S
  unfolding block_ip unblock_ip is_blocked
  linux_adapter = record { block_ip = block_ip; unblock_ip = unblock_ip; is_blocked = is_blocked }
