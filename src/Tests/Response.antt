-- ===== src/Tests/Response.antt =====
-- The response engine. The packet filter of the tests is the list of the addresses that it drops.
use smart_ids.Base.{
  string_eq, pair_eq, Bool-cases, inl, inr, ◌++◌, ◌==◌, ◌*◌, ◌<◌, ◌≡◌, refl, Bool, true, false,
  Option, none, some, List, [], ◌∷◌, String, length, if◌then◌else◌, arith,
}
use smart_ids.Dict.{contains, discard, get, keys, IsDistinct}
use smart_ids.Packet.{second}
use smart_ids.Text.{strip}
use smart_ids.Response.Policy.{ResponsePolicy, init as new_policy}
use smart_ids.Response.Policy.Attempts.{Attempt, after, Run, suspected, bruteforce_exact}
use smart_ids.Response.Commands.{
  ProcessedCommandStore, id_list, open_store, save, add_id, normalize,
}
use smart_ids.Response.Commands.Memory.{
  IsValid, open_store-IsValid, open_store-save, add_id-IsValid,
}
use smart_ids.Response.Activity.{IpActivityTracker, ActivityLine, fresh_state, record_activity}
use smart_ids.Response.Activity.Bounds.{IsBounded, record_activity-IsBounded}
use smart_ids.Response.Firewall.Linux.{iptables, linux_adapter}
use smart_ids.Response.Firewall.Linux.Rules.{
  Iptables, drop_from, without_first, linux_adapter_exact,
}
use smart_ids.Response.Blocker.{
  block_end, AutoBlocker, init, temp_block, expire_blocks, is_currently_blocked,
}
use smart_ids.Response.Blocker.Effects.{is_expired, expire_blocks_exact}
use smart_ids.Response.Blocker.Lasting.{Meanwhile, temp_block_lasts}

abbrev attempt : Attempt
attempt = record {
  src_ip = "10.0.0.7";
  dst_ip = "10.0.0.1";
  dst_port = some 22;
  timestamp = 10 * second;
}

abbrev policy : ResponsePolicy
policy = (after (new_policy (60 * second) 2) attempt).0

bruteforce_exact_example :
    (after policy attempt).1 ≡ suspected (60 * second) 2 (attempt ∷ []) attempt
bruteforce_exact_example =
    bruteforce_exact (Run.next Run.start attempt (omega arith)) attempt (omega arith)

abbrev store : ProcessedCommandStore
store = open_store 3 (id_list (" a " ∷ "b" ∷ "a" ∷ "" ∷ []))

store-IsValid : IsValid store
store-IsValid = open_store-IsValid 3 (id_list (" a " ∷ "b" ∷ "a" ∷ "" ∷ []))

open_store-save_example :
    (open_store store.max_command_ids (save store).file).command_ids ≡ store.command_ids
open_store-save_example = open_store-save store store-IsValid

add_id-IsValid_example : IsValid (add_id store "c ")
add_id-IsValid_example = add_id-IsValid store "c " store-IsValid

three : 0 < store.max_command_ids
unfolding open_store
three = omega arith

filled : (normalize "c " == "") ≡ false
unfolding normalize strip
filled = refl

abbrev tracker : IpActivityTracker
tracker = record {
  max_tracked_ips = 2;
  max_action_history = 2;
  max_file_entries = 3;
  file_compaction_interval_records = 2;
  state = [];
  file = [];
  file_readable = true;
  records_since_compaction = 0;
}

-- The file is too long, and the next record is the second of the interval.
abbrev line : ActivityLine
line = record { ip = "10.0.0.9"; state = fresh_state second; attempt_pattern = "single_attempt" }

abbrev long_tracker : IpActivityTracker
long_tracker = record tracker {
  file = line ∷ line ∷ line ∷ line ∷ [];
  records_since_compaction = 1;
}

long_tracker-IsBounded : IsBounded long_tracker
long_tracker-IsBounded = record {
  interval = omega arith;
  entries = omega arith;
  distinct = tt;
  ips = omega arith;
  since = omega arith;
}

record_activity-IsBounded_example :
    IsBounded (record_activity long_tracker "10.0.0.7" "port_scan" "alerted" second)
    × (length (record_activity long_tracker "10.0.0.7" "port_scan" "alerted" second).file ≡ 3)
record_activity-IsBounded_example =
    record_activity-IsBounded long_tracker "10.0.0.7" "port_scan" "alerted" second
      long_tracker-IsBounded

abbrev command : List String → String → String → List String × Bool
command dropped flag ip =
    if flag == "-C"
    then (dropped, contains ip dropped)
    else if flag == "-A"
    then (ip ∷ dropped, true)
    else if contains ip dropped
    then (discard ip dropped, true)
    else (dropped, false)

abbrev pub run : List String → List String → List String × Bool
run dropped (name ∷ flag ∷ chain ∷ source ∷ ip ∷ target) = command dropped flag ip
run dropped _ = (dropped, false)

-- A packet filter of rules.
abbrev on_rules :
    List (String × (String × String))
    → String
    → String × (String × String)
    → List (String × (String × String)) × Bool
on_rules rules flag r =
    if flag == "-C"
    then (rules, contains r rules)
    else if flag == "-A"
    then (rules ++ r ∷ [], true)
    else if contains r rules
    then (without_first r rules, true)
    else (rules, false)

abbrev filter_rules :
    List (String × (String × String)) → List String → List (String × (String × String)) × Bool
filter_rules rules (name ∷ flag ∷ chain ∷ source ∷ ip ∷ jump ∷ target ∷ more) =
    on_rules rules flag (chain, (ip, target))
filter_rules rules _ = (rules, false)

filter_rules-Iptables : Iptables filter_rules (λ rules. rules)
filter_rules-Iptables = record {
  check = λ s chain ip target. refl;
  check_keeps = λ s chain ip target. refl;
  append = λ s chain ip target. refl;
  delete = λ s chain ip target. elim (Bool-cases (contains (chain, (ip, target)) s)) [
    | inl e ↦ rw e refl
    | inr e ↦ rw e refl
  ];
}

abbrev some_rules : List (String × (String × String))
some_rules = ("INPUT", ("10.0.0.9", "ACCEPT")) ∷ ("OUTPUT", ("10.0.0.7", "DROP")) ∷ []

linux_adapter_exact_example :
    let adapter = linux_adapter filter_rules in
    (adapter.is_blocked some_rules "10.0.0.7" ≡ contains (drop_from "10.0.0.7") some_rules)
    × ((adapter.block_ip some_rules "10.0.0.7").0 ≡ (
        if contains (drop_from "10.0.0.7") some_rules
        then some_rules
        else if (adapter.block_ip some_rules "10.0.0.7").1.0
        then some_rules ++ drop_from "10.0.0.7" ∷ []
        else some_rules))
    × ((adapter.unblock_ip some_rules "10.0.0.7").0 ≡ (
        if (adapter.unblock_ip some_rules "10.0.0.7").1.0
        then without_first (drop_from "10.0.0.7") some_rules
        else some_rules))
linux_adapter_exact_example =
    linux_adapter_exact filter_rules (λ rules. rules) filter_rules-Iptables some_rules "10.0.0.7"

abbrev pub parse_ip : String → Option Bool
parse_ip ip = if ip == "10.0.0.7" then some false else none

abbrev pub blocker : AutoBlocker (List String)
blocker = init (some []) tracker

abbrev blocked : AutoBlocker (List String)
blocked = (temp_block (linux_adapter run) parse_ip blocker "10.0.0.7" 300 second).0

block_reported : (temp_block (linux_adapter run) parse_ip blocker "10.0.0.7" 300 second).1.0 ≡ true
unfolding temp_block linux_adapter init iptables contains
block_reported = refl

no_blocks : IsDistinct (keys blocker.blocked_until)
unfolding init
no_blocks = tt

abbrev lifted : AutoBlocker (List String)
lifted =
    expire_blocks (linux_adapter run) (200 * second)
      (temp_block (linux_adapter run) parse_ip blocked "10.0.0.8" 60 (100 * second)).0

meanwhile : Meanwhile (linux_adapter run) parse_ip "10.0.0.7" (block_end second 300) blocked lifted
meanwhile =
    Meanwhile.expired
      (Meanwhile.other_blocked Meanwhile.started "10.0.0.8" 60 (100 * second) (omega arith) refl)
      (200 * second) (omega arith)

temp_block_lasts_example :
    is_currently_blocked (linux_adapter run) lifted "10.0.0.7" (250 * second) ≡ true
temp_block_lasts_example =
    temp_block_lasts (linux_adapter run) parse_ip blocker lifted "10.0.0.7" 300 second
      (250 * second) no_blocks block_reported meanwhile (omega arith)

abbrev holding : AutoBlocker (List String)
holding = record blocker {
  firewall = some ("10.0.0.7" ∷ []);
  blocked_until = ("10.0.0.7", 20 * second) ∷ [];
  last_block_time = ("10.0.0.7", second) ∷ [];
}

one_block : IsDistinct (keys holding.blocked_until)
unfolding contains
one_block = (refl, tt)

expire_blocks_exact_example :
    (get (expire_blocks (linux_adapter run) (30 * second) holding).blocked_until "10.0.0.7" ≡ (
      if is_expired (30 * second) (get holding.blocked_until "10.0.0.7")
      then none
      else get holding.blocked_until "10.0.0.7"))
    × (get (expire_blocks (linux_adapter run) (30 * second) holding).last_block_time "10.0.0.7" ≡ (
        if is_expired (30 * second) (get holding.blocked_until "10.0.0.7")
        then none
        else get holding.last_block_time "10.0.0.7"))
expire_blocks_exact_example =
    expire_blocks_exact (linux_adapter run) (30 * second) holding ("10.0.0.7" ∷ []) "10.0.0.7" refl
      one_block
