-- ===== src/Service.antt =====
-- packet_capture/sniffer_service.py with packet_capture/sniffers/live_sniffer.py: the threads of the
-- engine, each turn of which is one step. The collector that the sniffer, the processor and the
-- telemetry share is the one of the processor's reports. The packets are those that the parser made.
pub mod Settings
pub mod Totals
pub mod Conservation
use smart_ids.Base.{
  string_eq, ◌==◌, ℕ, suc, Bool, true, false, ◌&&◌, not, Option, none, some, List, [], ◌∷◌, ◌++◌,
  String, length, ltb, if◌then◌else◌,
}
use smart_ids.Text.{strip}
use smart_ids.Packet.{PacketData, Time}
use smart_ids.Traffic.Stats.{Floats}
use smart_ids.Traffic.Builder.{snapshot_sessions}
use smart_ids.Telemetry.{
  EngineTelemetryCollector, TelemetrySnapshot, record_packet_received, record_packet_dropped,
  snapshot,
}
use smart_ids.Processor.{BackendCommand}
use smart_ids.Processor.Pipeline.Reporting.{Engine, Moment, Reports}
use smart_ids.Processor.Pipeline.{PacketProcessor, process, process_command}
use smart_ids.Realtime.{RestAck, ack_status}

-- `Queue(maxsize=10000)`
abbrev pub packet_queue_maxsize : ℕ
packet_queue_maxsize = 10_000

pub record SnifferService (F S : Type 0) : Type 0 where
  pub packet_queue : List PacketData
  pub seen_packets : ℕ
  pub processor : PacketProcessor F S
  pub has_ack_endpoint : Bool
  pub acks : List RestAck

module _ {F S : Type 0} where
  -- A call of the collector, if there is one.
  abbrev pub collect :
      (EngineTelemetryCollector F → EngineTelemetryCollector F)
      → PacketProcessor F S
      → PacketProcessor F S
  collect call p = record p {
    reports = record p.reports {
      telemetry_collector = elim p.reports.telemetry_collector [
        | none ↦ none
        | some c ↦ some (call c)
      ];
    };
  }

  -- `LiveSniffer._handle_packet`, with what the parser returned.
  unfoldable pub handle_packet : SnifferService F S → Option PacketData → Time → SnifferService F S
  unfolding record_packet_received record_packet_dropped
  handle_packet s none now = s
  handle_packet s (some packet) now =
      let received =
        collect (λ (c : EngineTelemetryCollector F). record_packet_received c now) s.processor in
      if ltb (length s.packet_queue) packet_queue_maxsize
      then record s {
        seen_packets = suc s.seen_packets;
        packet_queue = s.packet_queue ++ packet ∷ [];
        processor = received;
      }
      else record s {
        seen_packets = suc s.seen_packets;
        processor =
            collect (λ (c : EngineTelemetryCollector F). record_packet_dropped c now) received;
      }

  -- The packet is taken from the queue.
  abbrev pub with_queue :
      SnifferService F S → List PacketData → PacketProcessor F S → SnifferService F S
  with_queue s queue p = record s { packet_queue = queue; processor = p }

module _ {F S : Type 0} ⦃f : Floats F⦄ (engine : Engine F S) where
  -- One turn of `_consume_packets`, which waits while the queue is empty.
  unfoldable pub consume_packet : SnifferService F S → Moment → SnifferService F S
  unfolding process
  consume_packet s moment = elim s.packet_queue [
    | [] ↦ s
    | packet ∷ queue ↦ with_queue s queue (process engine s.processor packet moment)
  ]

  -- One turn of `_publish_engine_telemetry`: the service and the snapshot, if there is a collector.
  unfoldable pub publish_engine_telemetry :
      SnifferService F S → Time → SnifferService F S × Option (TelemetrySnapshot F)
  unfolding snapshot snapshot_sessions
  publish_engine_telemetry s now = elim s.processor.reports.telemetry_collector [
    | none ↦ (s, none)
    | some c ↦
        let (c', shot) =
          snapshot engine.rounding c (length s.packet_queue) packet_queue_maxsize
            (snapshot_sessions s.processor.session_builder) now in
        (
          record s { processor = collect (λ (_ : EngineTelemetryCollector F). c') s.processor },
          some shot,
        )
  ]

  -- The body of the loop over the commands of `_poll_backend_commands`.
  unfoldable pub apply_polled_command :
      (String → String) → SnifferService F S → BackendCommand → Time → SnifferService F S
  unfolding process_command strip
  apply_polled_command lower s command now =
      let (p, reply) = process_command engine lower s.processor command now in
      let command_id = strip command.command_id in
      record s {
        processor = p;
        acks =
            if s.has_ack_endpoint && not (command_id == "")
            then s.acks ++ record { command_id = command_id; status = ack_status reply } ∷ []
            else s.acks;
      }

  -- One turn of `_poll_backend_commands`, where the poll returns these commands.
  unfoldable pub poll_backend_commands :
      (String → String) → SnifferService F S → List BackendCommand → Time → SnifferService F S
  unfolding apply_polled_command
  poll_backend_commands lower s [] now = s
  poll_backend_commands lower s (command ∷ commands) now =
      poll_backend_commands lower (apply_polled_command lower s command now) commands now
