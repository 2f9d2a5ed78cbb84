-- ===== src/Response/Firewall/Windows.antt =====
-- response_engine/firewall/windows_adapter.py over `netsh`, and factory.py.
use Prim.Native.Char.{code}
use smart_ids.Base.{
  nat_eq, string_eq, ◌==◌, String, Bool, true, false, ◌&&◌, ◌||◌, Option, none, some, List, [], ◌∷◌,
  if◌then◌else◌,
}
use smart_ids.Text.{concat}
use smart_ids.Response.Firewall.{FirewallAdapter}
use smart_ids.Response.Firewall.Linux.{linux_adapter}

unfoldable pub is_prefix : String → String → Bool
is_prefix String.[] t = true
is_prefix (String.◌∷◌ c s) String.[] = false
is_prefix (String.◌∷◌ c s) (String.◌∷◌ d t) = let rest = is_prefix s t in (code c == code d) && rest

-- `s in t`
unfoldable pub occurs : String → String → Bool
unfolding is_prefix
occurs s String.[] = is_prefix s String.[]
occurs s (String.◌∷◌ d t) = is_prefix s (String.◌∷◌ d t) || occurs s t

-- `_rule_name`
unfoldable pub rule_name : String → String
rule_name ip_address = concat "SmartIDS_Block_" ip_address

unfoldable pub add_rule : String → List String
unfolding rule_name
add_rule ip_address =
    "netsh"
    ∷ "advfirewall"
    ∷ "firewall"
    ∷ "add"
    ∷ "rule"
    ∷ concat "name=" (rule_name ip_address)
    ∷ "dir=in"
    ∷ "action=block"
    ∷ concat "remoteip=" ip_address
    ∷ "enable=yes"
    ∷ []

-- The commands that delete a rule and that show it.
unfoldable pub named_rule : String → String → List String
unfolding rule_name
named_rule verb ip_address =
    "netsh"
    ∷ "advfirewall"
    ∷ "firewall"
    ∷ verb
    ∷ "rule"
    ∷ concat "name=" (rule_name ip_address)
    ∷ []

-- `subprocess.run`: the packet filter that the command leaves, whether it ended with status 0, and
-- what it printed. An exception counts as another status.
module _ {S : Type 0} (run : S → List String → S × Bool × String) where
  -- What `is_blocked` makes of the answer to the command that shows the rule.
  abbrev pub shows : String → S × Bool × String → Bool
  shows ip_address answer = answer.1 && occurs (rule_name ip_address) answer.2

  unfoldable pub windows_is_blocked : S → String → Bool
  unfolding named_rule occurs
  windows_is_blocked s ip_address = shows ip_address (run s (named_rule "show" ip_address))

  unfoldable pub windows_block_ip : S → String → S × (Bool × String)
  unfolding add_rule windows_is_blocked
  windows_block_ip s ip_address =
      let checked = run s (named_rule "show" ip_address) in
      if shows ip_address checked
      then (checked.0, (true, "already_blocked"))
      else (let added = run checked.0 (add_rule ip_address) in
          if added.1 then (added.0, (true, "blocked")) else (added.0, (false, "block_failed")))

  unfoldable pub windows_unblock_ip : S → String → S × (Bool × String)
  unfolding named_rule
  windows_unblock_ip s ip_address =
      let deleted = run s (named_rule "delete" ip_address) in
      if deleted.1 then (deleted.0, (true, "unblocked")) else (deleted.0, (false, "unblock_failed"))

  unfoldable pub windows_adapter : FirewallAdapter S
  unfolding windows_block_ip windows_unblock_ip windows_is_blocked
  windows_adapter = record {
    block_ip = windows_block_ip;
    unblock_ip = windows_unblock_ip;
    is_blocked = windows_is_blocked;
  }

-- factory.py: `create_firewall_adapter` for the system that `platform.system` names.
unfoldable pub create_firewall_adapter :
    {S : Type 0}
    → (S → List String → S × Bool × String)
    → (S → List String → S × Bool)
    → (String → String)
    → String
    → Option (FirewallAdapter S)
unfolding windows_adapter linux_adapter
create_firewall_adapter run_netsh run_iptables lower system =
    let system_name = lower system in
    if system_name == "windows"
    then some (windows_adapter run_netsh)
    else if system_name == "linux"
    then some (linux_adapter run_iptables)
    else none
