-- ===== src/Realtime.antt =====
-- packet_capture/realtime/engine_ws_client.py. `apply_command` is a parameter over a world `W`; a
-- payload `C` is a decoded dictionary, read by `command_id_of`, which is
-- `str(payload.get("command_id", ""))`, and `no_payload` is the empty one. What is sent is recorded.
pub mod Backoff
pub mod Delivery
use smart_ids.Base.{
  string_eq, ◌==◌, ℕ, suc, ◌*◌, ◌^◌, Bool, true, false, ◌&&◌, not, Option, none, some, List, [],
  ◌∷◌, ◌++◌, String, min, max, ltb, if◌then◌else◌,
}
use smart_ids.Text.{strip, concat}
use smart_ids.Packet.{Time, second}
use smart_ids.Response.Blocker.{Reply}
use smart_ids.Forwarding.Publisher.{BackgroundPublisher, init, submit}

-- An ack in the queue; `ack_source` is always "engine_ws".
pub record CommandAck : Type 0 where
  pub command_id : String
  pub status : String
  pub acked_at : Time

-- An ack over HTTP.
pub record RestAck : Type 0 where
  pub command_id : String
  pub status : String

pub record EngineWsClient (W C : Type 0) : Type 0 where
  pub world : W
  pub reconnect_base : Time
  pub reconnect_cap : Time
  pub has_poller : Bool
  pub has_ack_endpoint : Bool
  pub has_config_handler : Bool
  pub connected : Bool
  pub ack_publisher : BackgroundPublisher CommandAck
  pub rest_acks : List RestAck
  pub pongs : ℕ
  pub config_updates : List C

-- A frame that arrives: one that is no JSON object, or its type and its payload, if that is an
-- object.
pub data Incoming (C : Type 0) : Type 0 where
  unreadable : Incoming C
  frame : String → Option C → Incoming C

-- The reply to the auth frame: its type and the status in its payload, where they are there.
pub record AuthReply : Type 0 where
  pub kind : Option String
  pub status : Option String

-- What one connection brings: whether it opens, the reply to the auth frame, the commands of the
-- poll, and the frames up to its end.
pub record Connection (C : Type 0) : Type 0 where
  pub opens : Bool
  pub auth_reply : Option AuthReply
  pub polled : List C
  pub incoming : List (Incoming C)

-- `max(0.1, base)`, and the cap not below it.
unfoldable pub new_client :
    {W C : Type 0} → W → Time → Time → ℕ → Bool → Bool → Bool → EngineWsClient W C
unfolding init
new_client world base cap queue_size has_poller has_ack_endpoint has_config_handler = record {
  world = world;
  reconnect_base = max 100_000 base;
  reconnect_cap = max (max 100_000 base) cap;
  has_poller = has_poller;
  has_ack_endpoint = has_ack_endpoint;
  has_config_handler = has_config_handler;
  connected = false;
  ack_publisher = init queue_size 25 none;
  rest_acks = [];
  pongs = 0;
  config_updates = [];
}

-- `2**attempt` as a float, in `base * (2**attempt)`: `OverflowError` from this exponent on.
abbrev pub float_exponent_limit : ℕ
float_exponent_limit = 1024

-- `_next_backoff_delay`, where `uniform` is `random.uniform`; `none` is the `OverflowError`.
unfoldable pub next_backoff_delay : (Time → Time → Time) → Time → Time → ℕ → Option Time
next_backoff_delay uniform base cap attempt =
    if ltb attempt float_exponent_limit
    then some (uniform 0 (min cap (base * 2 ^ attempt)))
    else none

-- `status if ok else f"error:{status}"`
abbrev pub ack_status : Reply → String
ack_status (ok, status) = if ok then status else concat "error:" status

abbrev pub is_text : Option String → String → Bool
is_text none expected = false
is_text (some text) expected = text == expected

-- The test of `_authenticate`, `none` being a reply that is no object.
unfoldable pub is_accepted : Option AuthReply → Bool
is_accepted none = false
is_accepted (some reply) = is_text reply.kind "auth" && is_text reply.status "ok"

module _ {W C : Type 0} (apply_command : W → C → W × Reply) (command_id_of : C → String) where
  -- `_apply_and_ack_via_rest`
  unfoldable pub apply_and_ack_via_rest : EngineWsClient W C → C → EngineWsClient W C
  unfolding strip
  apply_and_ack_via_rest client command =
      let (world, reply) = apply_command client.world command in
      let command_id = strip (command_id_of command) in
      let applied : EngineWsClient W C = record client { world = world } in
      if not (client.has_ack_endpoint && client.has_poller)
      then applied
      else if command_id == ""
      then applied
      else record applied {
        rest_acks =
            client.rest_acks ++ record { command_id = command_id; status = ack_status reply } ∷ [];
      }

  unfoldable pub catch_up_all : EngineWsClient W C → List C → EngineWsClient W C
  unfolding apply_and_ack_via_rest
  catch_up_all client [] = client
  catch_up_all client (command ∷ commands) =
      catch_up_all (apply_and_ack_via_rest client command) commands

  -- `_run_catchup`, where the poll returns these commands.
  unfoldable pub run_catchup : EngineWsClient W C → List C → EngineWsClient W C
  unfolding catch_up_all
  run_catchup client polled = if client.has_poller then catch_up_all client polled else client

  -- `_handle_command`
  unfoldable pub handle_command : EngineWsClient W C → C → Time → EngineWsClient W C
  unfolding strip submit
  handle_command client command now =
      let (world, reply) = apply_command client.world command in
      let command_id = strip (command_id_of command) in
      let applied : EngineWsClient W C = record client { world = world } in
      if command_id == "" then applied else record applied {
        ack_publisher =
            (submit client.ack_publisher
              (record { command_id = command_id; status = ack_status reply; acked_at = now })).0;
      }

module _ {W C : Type 0} (apply_command : W → C → W × Reply) (command_id_of : C → String)
    (no_payload : C) where
  abbrev pub payload_or_empty : Option C → C
  payload_or_empty none = no_payload
  payload_or_empty (some payload) = payload

  -- `_handle_incoming`, with `_handle_config_update`; a pong is sent while the socket is there.
  unfoldable pub handle_incoming : EngineWsClient W C → Incoming C → Time → EngineWsClient W C
  unfolding handle_command
  handle_incoming client unreadable now = client
  handle_incoming client (frame msg_type payload) now =
      if msg_type == "command"
      then handle_command apply_command command_id_of client (payload_or_empty payload) now
      else if msg_type == "config_update"
      then (if client.has_config_handler
          then record client {
            config_updates = client.config_updates ++ payload_or_empty payload ∷ [];
          }
          else client)
      else if msg_type == "ping"
      then (if client.connected then record client { pongs = suc client.pongs } else client)
      else client

  unfoldable pub handle_all : EngineWsClient W C → List (Incoming C) → Time → EngineWsClient W C
  unfolding handle_incoming
  handle_all client [] now = client
  handle_all client (x ∷ xs) now = handle_all (handle_incoming client x now) xs now

  -- `_run_connection`; it raises where the connection does not open or is not accepted, and the loop
  -- goes on in the same way.
  unfoldable pub run_connection : EngineWsClient W C → Connection C → Time → EngineWsClient W C
  unfolding is_accepted run_catchup handle_all
  run_connection client connection now =
      if connection.opens && is_accepted connection.auth_reply
      then record (handle_all
          (run_catchup apply_command command_id_of (record client { connected = true })
            connection.polled)
          connection.incoming now) { connected = false }
      else record client { connected = false }

-- One turn of the loop: whether `stop` was called before it and during it, and the connection.
pub record Turn (C : Type 0) : Type 0 where
  pub stopped_before : Bool
  pub connection : Connection C
  pub stopped_after : Bool
  pub now : Time

pub data LoopEnd : Type 0 where
  stopped crashed running : LoopEnd

module _ {W C : Type 0} (apply_command : W → C → W × Reply) (command_id_of : C → String)
    (no_payload : C) (uniform : Time → Time → Time) where
  -- `_connect_loop` through these turns: the client, the waits, and how the loop ended, if it did.
  unfoldable pub connect_loop :
      ℕ → EngineWsClient W C → List (Turn C) → EngineWsClient W C × List Time × LoopEnd
  unfolding run_connection next_backoff_delay
  connect_loop attempt client [] = (client, [], running)
  connect_loop attempt client (turn ∷ turns) =
      let client1 =
        run_connection apply_command command_id_of no_payload client turn.connection turn.now in
      let rest = connect_loop (suc attempt) client1 turns in
      if turn.stopped_before
      then (client, [], stopped)
      else if turn.stopped_after
      then (client1, [], stopped)
      else elim (next_backoff_delay uniform client.reconnect_base client.reconnect_cap attempt) [
        | none ↦ (client1, [], crashed)
        | some delay ↦ (rest.0, delay ∷ rest.1, rest.2)
      ]
