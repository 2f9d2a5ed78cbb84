-- ===== src/Response/Firewall.antt =====
-- response_engine/firewall/base.py: the adapter interface. The commands that the adapters run are
-- outside the program: `Iptables` says what is relied on of the one of Linux.
pub mod Linux
pub mod Windows
use smart_ids.Base.{String, Bool}

-- base.py: `FirewallAdapter`, over the state of the packet filter.
pub record FirewallAdapter (S : Type 0) : Type 0 where
  pub block_ip : S → String → S × (Bool × String)
  pub unblock_ip : S → String → S × (Bool × String)
  pub is_blocked : S → String → Bool
