-- ===== src/Processor/Respond.antt =====
-- packet_capture/processor/packet_processor.py: what `process` and `_process_finalized_session` do
-- on evidence against an address. `now` is what `time.time()` returns in a call.
pub mod Handlers
pub mod Evidence
use smart_ids.Base.{
  string_eq, ◌==◌, ℕ, Bool, true, false, ◌&&◌, not, Option, none, some, String, if◌then◌else◌,
}
use smart_ids.Text.{concat}
use smart_ids.Packet.{PacketData, Time}
use smart_ids.Traffic.Stats.{Floats}
use smart_ids.Traffic.Session.{SessionKey, TrafficSession, from_packet}
use smart_ids.Response.Firewall.{FirewallAdapter}
use smart_ids.Response.Policy.{ResponsePolicy, classify_heuristic_action}
use smart_ids.Response.Blocker.{
  AutoBlocker, Reply, temp_block, expire_blocks, is_currently_blocked, is_watchlisted,
  record_detection_activity,
}
use smart_ids.Forwarding.Contracts.{
  Scores, Texts, Prediction, session_id, milliseconds, is_normal, smaller,
}
use smart_ids.Processor.{BlockEvent, CommandProcessor}
use smart_ids.Processor.Outbox.{publish}
use smart_ids.Processor.Alerts.{Alert, AlertState, add_alert, emit_session_alert}

-- The parts of a `PacketProcessor` that a response changes.
pub record Responder (F S : Type 0) : Type 0 where
  pub commands : CommandProcessor S
  pub alerts : AlertState F

module _ {F S : Type 0} where
  abbrev pub with_blocker : Responder F S → AutoBlocker S → Responder F S
  with_blocker r b = record r { commands = record r.commands { auto_blocker = b } }

  -- `_publish_block_event`
  unfoldable pub publish_block_event : Responder F S → BlockEvent → Responder F S
  unfolding publish
  publish_block_event r event = record r {
    commands = record r.commands {
      block_event_publisher = publish r.commands.block_event_publisher event;
    };
  }

  -- `self.auto_blocker.record_detection_activity`
  unfoldable pub note_activity : Responder F S → String → String → String → Time → Responder F S
  unfolding record_detection_activity
  note_activity r ip_address attack_type action timestamp =
      with_blocker r
        (record_detection_activity r.commands.auto_blocker ip_address attack_type action timestamp)

-- The event of a block for which a packet is the evidence.
unfoldable pub packet_block_event : Texts → String → String → PacketData → BlockEvent
unfolding session_id from_packet
packet_block_event texts prefix reason packet = record {
  event_id =
      concat prefix
        (concat packet.src_ip (concat "-" (texts.show (milliseconds packet.timestamp))));
  source_ip = packet.src_ip;
  action_taken = "blocked";
  reason = reason;
  detection_method = "heuristic";
  session_id = some (session_id texts.show (from_packet packet));
  source_port = packet.src_port;
  destination_ip = some packet.dst_ip;
  destination_port = packet.dst_port;
  protocol = some packet.protocol;
  timestamp = packet.timestamp;
}

-- The alert for which a packet is the evidence.
unfoldable pub packet_alert : {F : Type 0} → String → String → F → Reply → ℕ → PacketData → Alert F
packet_alert kind attack_type confidence reply duration_seconds packet = record {
  kind = kind;
  attack_type = attack_type;
  confidence = confidence;
  blocked = reply.0;
  block_status = reply.1;
  block_duration_seconds = duration_seconds;
  src_ip = packet.src_ip;
  dst_ip = packet.dst_ip;
  src_port = packet.src_port;
  dst_port = packet.dst_port;
  protocol = packet.protocol;
  timestamp = packet.timestamp;
  is_final = none;
  session_id = none;
  update_type = none;
}

module _ {F : Type 0} where
  unfoldable pub session_block_event :
      Texts → String → SessionKey → TrafficSession F → String → BlockEvent
  unfolding session_id
  session_block_event texts prefix key session label = record {
    event_id =
        concat prefix
          (concat session.src_ip (concat "-" (texts.show (milliseconds session.last_seen))));
    source_ip = session.src_ip;
    action_taken = "blocked";
    reason = label;
    detection_method = "ml";
    session_id = some (session_id texts.show key);
    source_port = session.src_port;
    destination_ip = some session.dst_ip;
    destination_port = session.dst_port;
    protocol = some session.protocol;
    timestamp = session.last_seen;
  }

  unfoldable pub session_alert :
      String → Option Bool → Prediction F → Reply → ℕ → TrafficSession F → Alert F
  session_alert kind is_final prediction reply duration_seconds session = record {
    kind = kind;
    attack_type = prediction.label;
    confidence = prediction.confidence;
    blocked = reply.0;
    block_status = reply.1;
    block_duration_seconds = duration_seconds;
    src_ip = session.src_ip;
    dst_ip = session.dst_ip;
    src_port = session.src_port;
    dst_port = session.dst_port;
    protocol = session.protocol;
    timestamp = session.last_seen;
    is_final = is_final;
    session_id = none;
    update_type = none;
  }

-- `self.alert_confidence_threshold`, which is 0.80.
abbrev pub alert_confidence_threshold : {F : Type 0} → ⦃f : Floats F⦄ → F
alert_confidence_threshold ⦃f⦄ = f.div (f.of_nat 8) (f.of_nat 10)

module _ {F : Type 0} where
  -- `_should_alert`
  unfoldable pub should_alert : ⦃f : Floats F⦄ → Scores F → Prediction F → Bool
  should_alert scores prediction =
      if prediction.label == "Normal Traffic"
      then false
      else scores.at_least prediction.confidence alert_confidence_threshold
