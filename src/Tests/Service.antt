-- ===== src/Tests/Service.antt =====
-- The service: two packets are captured and one of them is processed.
use smart_ids.Base.{string_eq, ℕ, ◌*◌, ◌≡◌, refl, true, some, List, [], ◌∷◌, String, arith}
use smart_ids.Dict.{Dict, get}
use smart_ids.Packet.{second}
use smart_ids.Telemetry.{new_collector}
use smart_ids.Service.{SnifferService, handle_packet, consume_packet}
use smart_ids.Service.Conservation.{IsConserved, Reachable, packets-IsConserved}
use smart_ids.Service.Settings.{load_project_env}
use smart_ids.Service.Settings.Environment.{or_else, first_setting, get-load_project_env}
use smart_ids.Tests.Data.{syn_packet, ack_packet, whole_numbers}
use smart_ids.Tests.Pipeline.{engine, processor, moment}

abbrev service : SnifferService ℕ (List String)
service = record {
  packet_queue = [];
  seen_packets = 0;
  processor = processor 8;
  has_ack_endpoint = true;
  acks = [];
}

service-IsConserved : IsConserved service
unfolding new_collector
service-IsConserved = record {
  counts = record { received = 0; processed = 0; dropped = 0 };
  counted = refl;
  conserved = refl;
  bounded = omega arith;
}

abbrev busy : SnifferService ℕ (List String)
busy =
    consume_packet engine
      (handle_packet (handle_packet service (some syn_packet) (10 * second)) (some ack_packet)
        (11 * second))
      moment

busy-Reachable : Reachable engine service busy
busy-Reachable =
    Reachable.consumed
      (Reachable.captured (Reachable.captured Reachable.started (some syn_packet) (10 * second))
        (some ack_packet) (11 * second))
      moment

packets-IsConserved_example : IsConserved busy
packets-IsConserved_example =
    packets-IsConserved engine service busy service-IsConserved busy-Reachable

abbrev environ : Dict String String
environ = ("PORT", "80") ∷ []

abbrev lines : List String
lines = "# ports" ∷ "PORT=22" ∷ "HOST = 'a'" ∷ []

get-load_project_env_example :
    get (load_project_env environ lines) "HOST"
    ≡ or_else (get environ "HOST") (first_setting "HOST" lines)
get-load_project_env_example = get-load_project_env environ lines "HOST"
