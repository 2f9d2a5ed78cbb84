-- ===== src/Tests/Processor.antt =====
-- The commands of the backend and the session alerts.
use smart_ids.Base.{
  string_eq, ◌==◌, ◌*◌, ◌<◌, ◌≡◌, refl, Bool, true, false, none, some, ℕ, leb, List, [], ◌∷◌,
  length, String, arith, last_n,
}
use smart_ids.Dict.{contains}
use smart_ids.Response.Blocker.{watchlist_ip}
use smart_ids.Packet.{second, Time}
use smart_ids.Text.{strip}
use smart_ids.Response.Commands.{unreadable, open_store, contains_id}
use smart_ids.Processor.{BackendCommand, CommandProcessor, apply_backend_command}
use smart_ids.Capture.Features.{empty_store}
use smart_ids.Forwarding.Contracts.{Scores}
use smart_ids.Processor.Alerts.{Alert, AlertState, emit_session_alert}
use smart_ids.Processor.Once.{apply_all, apply_backend_command_once, apply_backend_command_failed}
use smart_ids.Processor.Repeats.{emit_all, emit_session_alert_again}
use smart_ids.Response.Firewall.Linux.{linux_adapter}
use smart_ids.Tests.Response.{run, parse_ip, blocker}

-- The commands of the tests are in lower case.
abbrev pub lower : String → String
lower s = s

abbrev pub watch : BackendCommand
watch = record {
  command_id = " c-1 ";
  action = "watchlist";
  ip_address = "10.0.0.7";
  duration_seconds = none;
}

abbrev pub processor : CommandProcessor (List String)
processor = record {
  auto_blocker = blocker;
  processed_command_store = open_store 3 unreadable;
  block_event_publisher = some [];
}

pub three : 0 < processor.processed_command_store.max_command_ids
unfolding open_store
three = omega arith

pub filled : (strip watch.command_id == "") ≡ false
unfolding strip
filled = refl

pub watched :
    (apply_backend_command (linux_adapter run) parse_ip lower processor watch second).1.0 ≡ true
unfolding apply_backend_command strip open_store contains_id contains last_n watchlist_ip
watched = refl

abbrev pub others : List (BackendCommand × Time)
others =
    (record watch { command_id = "c-2" }, 2 * second)
    ∷ (record watch { command_id = "c-3" }, 3 * second)
    ∷ []

pub room : length others < processor.processed_command_store.max_command_ids
unfolding open_store
room = omega arith

pub not_known : contains_id processor.processed_command_store (strip watch.command_id) ≡ false
unfolding strip open_store contains_id contains last_n
not_known = refl

apply_backend_command_once_example :
    let after =
      apply_all
        (linux_adapter run)
        parse_ip
        lower
        (apply_backend_command (linux_adapter run) parse_ip lower processor watch second).0
        others in
    apply_backend_command (linux_adapter run) parse_ip lower after watch (4 * second)
    ≡ (after, (true, "duplicate_command"))
apply_backend_command_once_example =
    apply_backend_command_once (linux_adapter run) parse_ip lower processor watch second
      (4 * second) others room filled not_known watched

abbrev unknown : BackendCommand
unknown = record watch { action = "reboot" }

refused :
    (apply_backend_command (linux_adapter run) parse_ip lower processor unknown second).1.0 ≡ false
unfolding apply_backend_command strip open_store contains_id contains last_n
refused = refl

apply_backend_command_failed_example :
    ((apply_backend_command
        (linux_adapter run)
        parse_ip
        lower
        processor
        unknown
        second).0.processed_command_store
      ≡ processor.processed_command_store)
    × ((apply_backend_command
          (linux_adapter run)
          parse_ip
          lower
          processor
          unknown
          second).0.block_event_publisher
        ≡ processor.block_event_publisher)
apply_backend_command_failed_example =
    apply_backend_command_failed (linux_adapter run) parse_ip lower processor unknown second refused

abbrev scores : Scores ℕ
scores = record {
  at_least = λ a b. leb b a;
  round_4 = λ a. a;
  ten_thousandths = λ a. a * 10_000;
  seconds = λ t. t;
}

abbrev scan : Alert ℕ
scan = record {
  kind = "ml_attack_detected";
  attack_type = "PortScan";
  confidence = 1;
  blocked = true;
  block_status = "blocked";
  block_duration_seconds = 900;
  src_ip = "10.0.0.7";
  dst_ip = "10.0.0.1";
  src_port = some 50000;
  dst_port = some 22;
  protocol = 6;
  timestamp = second;
  is_final = none;
  session_id = none;
  update_type = none;
}

abbrev quiet : AlertState ℕ
quiet = record {
  session_alert_state = [];
  alert_store = empty_store 1000;
  alert_publisher = some [];
}

abbrev other_sessions : List (String × Alert ℕ × Bool)
other_sessions = ("c-d", scan, false) ∷ ("c-d", scan, true) ∷ []

emit_session_alert_again_example :
    let later = emit_all scores (emit_session_alert scores quiet "a-b" scan false) other_sessions in
    emit_session_alert scores later "a-b" scan false ≡ later
emit_session_alert_again_example =
    emit_session_alert_again scores quiet "a-b" scan other_sessions (refl, (refl, tt))
