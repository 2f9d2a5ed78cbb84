-- ===== src/Tests/Realtime.antt =====
-- The websocket client.
use smart_ids.Base.{
  ℕ, zero, suc, ◌*◌, ◌≤◌, ◌<◌, ◌≡◌, ◌++◌, refl, true, false, none, List, [], ◌∷◌, String, All,
  length, arith, string_eq,
}
use smart_ids.Text.{strip}
use smart_ids.Packet.{Time, second}
use smart_ids.Response.Blocker.{Reply}
use smart_ids.Response.Firewall.Linux.{linux_adapter}
use smart_ids.Processor.{BackendCommand, CommandProcessor}
use smart_ids.Realtime.{EngineWsClient, Turn, crashed, new_client, connect_loop, run_catchup}
use smart_ids.Realtime.Backoff.{IsUniform, GoesOn, connect_loop_ends}
use smart_ids.Realtime.Delivery.{apply_to, push_all, id_of, pushed_command_once}
use smart_ids.Tests.Response.{run, parse_ip}
use smart_ids.Tests.Processor.{lower, watch, processor, others, room, not_known, filled, watched}

-- The least number, in place of a random one.
abbrev lowest : Time → Time → Time
lowest a b = a

lowest-IsUniform : IsUniform lowest
lowest-IsUniform a b h = (omega arith, h)

-- A world that counts the commands, which are texts that name themselves.
abbrev count_up : ℕ → String → ℕ × Reply
count_up n command = (suc n, (true, "blocked"))

abbrev client : EngineWsClient ℕ String
client = new_client 0 second (60 * second) 256 true true false

abbrev lost : Turn String
lost = record {
  stopped_before = false;
  connection = record { opens = false; auth_reply = none; polled = []; incoming = [] };
  stopped_after = false;
  now = second;
}

abbrev again : ℕ → List (Turn String)
again zero = []
again (suc n) = lost ∷ again n

connect_loop_ends_example :
    (length (connect_loop count_up (λ c. c) "" lowest 0 client (again 1025)).1 ≤ 1024)
    × (All GoesOn (again 1025)
        → 1024 < length (again 1025)
        → (connect_loop count_up (λ c. c) "" lowest 0 client (again 1025)).2 ≡ crashed)
connect_loop_ends_example = connect_loop_ends count_up (λ c. c) "" lowest client (again 1025)

abbrev engine_client : EngineWsClient (CommandProcessor (List String)) BackendCommand
engine_client = record {
  world = processor;
  reconnect_base = second;
  reconnect_cap = 60 * second;
  has_poller = true;
  has_ack_endpoint = true;
  has_config_handler = false;
  connected = true;
  ack_publisher = record {
    queue = [];
    maxsize = 256;
    drop_log_every = 25;
    dropped = 0;
    spill_store = none;
  };
  rest_acks = [];
  pongs = 0;
  config_updates = [];
}

pushed_command_once_example :
    let pushed =
      push_all (linux_adapter run) parse_ip lower engine_client ((watch, second) ∷ others) in
    run_catchup
      (apply_to (linux_adapter run) parse_ip lower (4 * second))
      id_of
      pushed
      (watch ∷ watch ∷ [])
    ≡ run_catchup
        (apply_to (linux_adapter run) parse_ip lower (4 * second))
        id_of
        (record pushed {
          rest_acks =
              pushed.rest_acks
              ++ record { command_id = strip watch.command_id; status = "duplicate_command" } ∷ [];
        })
        (watch ∷ [])
pushed_command_once_example =
    pushed_command_once (linux_adapter run) parse_ip lower engine_client watch second (4 * second)
      others (watch ∷ []) room filled not_known watched refl refl
