-- ===== src/Response/Policy.antt =====
-- response_engine/policy.py. The window and the threshold that come from the environment are natural
-- numbers here.
pub mod Attempts
use smart_ids.Base.{
  nat_eq, string_eq, pair_eq, ℕ, ◌*◌, Bool, true, false, Option, none, some, List, [], ◌∷◌, String,
  length, leb, if◌then◌else◌,
}
use smart_ids.Dict.{Dict, contains, get_or}
use smart_ids.Packet.{Time, second}
use smart_ids.Window.{slide_at}

-- `(src_ip, dst_ip, port)`
abbrev pub AttemptKey : Type 0
AttemptKey = String × (String × ℕ)

pub record ResponsePolicy : Type 0 where
  pub low_heuristic_score_max : ℕ
  pub high_heuristic_score_min : ℕ
  pub high_heuristic_block_seconds : ℕ
  pub ml_confirmed_block_seconds : ℕ
  pub bruteforce_block_seconds : ℕ
  pub bruteforce_window : Time
  pub bruteforce_attempt_threshold : ℕ
  pub bruteforce_service_ports : List ℕ
  pub attempts : Dict AttemptKey (List Time)

-- `__init__`, with the two values of the environment (90 seconds and 25 by default).
unfoldable pub init : Time → ℕ → ResponsePolicy
init window threshold = record {
  low_heuristic_score_max = 2;
  high_heuristic_score_min = 3;
  high_heuristic_block_seconds = 300;
  ml_confirmed_block_seconds = 900;
  bruteforce_block_seconds = 600;
  bruteforce_window = window;
  bruteforce_attempt_threshold = threshold;
  bruteforce_service_ports = 21 ∷ 22 ∷ 23 ∷ 25 ∷ 110 ∷ 143 ∷ 3389 ∷ [];
  attempts = [];
}

unfoldable pub classify_heuristic_action : ResponsePolicy → ℕ → String
classify_heuristic_action p score =
    if leb p.high_heuristic_score_min score
    then "high_temp_block"
    else if leb score p.low_heuristic_score_max
    then "alert_only"
    else "alert_only"

abbrev pub own_time : Time → Time
own_time t = t

unfoldable pub record_bruteforce_attempt :
    ResponsePolicy → String → String → Option ℕ → Time → ResponsePolicy × Bool
unfolding get_or
record_bruteforce_attempt p src_ip dst_ip none timestamp = (p, false)
record_bruteforce_attempt p src_ip dst_ip (some port) timestamp =
    if contains port p.bruteforce_service_ports
    then (let key : AttemptKey = (src_ip, (dst_ip, port)) in
        let attempts = slide_at own_time p.bruteforce_window key timestamp p.attempts in
        (
          record p { attempts = attempts },
          leb p.bruteforce_attempt_threshold (length (get_or attempts key [])),
        ))
    else (p, false)
