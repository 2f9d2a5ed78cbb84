-- ===== src/Processor/Shadow.antt =====
-- packet_capture/processor/packet_processor.py: `SecondaryShadowEventPublisher`, which publishes what
-- the secondary model says, and `telemetry_extras`.
use smart_ids.Base.{
  string_eq, ◌==◌, ℕ, ◌+◌, Bool, Option, none, some, List, [], ◌∷◌, String, length, ltb,
  if◌then◌else◌,
}
use smart_ids.Packet.{Time}
use smart_ids.Traffic.Stats.{Floats}
use smart_ids.Telemetry.{Rounding, EngineTelemetryCollector, record_secondary_model_prediction}
use smart_ids.Forwarding.Contracts.{Scores, Texts, Prediction, prediction_event_id}
use smart_ids.Forwarding.Publisher.{BackgroundPublisher}
use smart_ids.Processor.Respond.{alert_confidence_threshold}
use smart_ids.Processor.Outbox.{Publisher, publish}

-- The context of a prediction, as the processor gives it to a predictor.
pub record ShadowContext : Type 0 where
  pub session_key : String
  pub src_ip : String
  pub dst_ip : String
  pub src_port : Option ℕ
  pub dst_port : Option ℕ
  pub protocol : ℕ
  pub timestamp : Time
  pub event_type : String
  pub is_final : Bool

-- An event of the shadow, with the fields that vary; the action is always "shadow".
pub record ShadowEvent (F : Type 0) : Type 0 where
  pub event_id : String
  pub ts : Time
  pub source_ip : String
  pub destination_ip : String
  pub source_port : Option ℕ
  pub destination_port : Option ℕ
  pub protocol : ℕ
  pub model : String
  pub prediction : String
  pub confidence : F
  pub severity : String
  pub action : String
  pub detection_method : String
  pub session_id : String
  pub risk_score : F
  pub is_final : Bool

pub record ShadowEventPublisher (F : Type 0) : Type 0 where
  pub event_publisher : Publisher (ShadowEvent F)
  pub telemetry_collector : Option (EngineTelemetryCollector F)

-- `result.get("model_key", "decision_tree")`
abbrev pub shadow_model : Option String → String
shadow_model none = "decision_tree"
shadow_model (some key) = key

-- The sums over the dispatchers that there are.
abbrev pub total_size : {P : Type 0} → List (BackgroundPublisher P) → ℕ
total_size [] = 0
total_size (d ∷ dispatchers) = length d.queue + total_size dispatchers

abbrev pub total_maxsize : {P : Type 0} → List (BackgroundPublisher P) → ℕ
total_maxsize [] = 0
total_maxsize (d ∷ dispatchers) = d.maxsize + total_maxsize dispatchers

abbrev pub total_dropped : {P : Type 0} → List (BackgroundPublisher P) → ℕ
total_dropped [] = 0
total_dropped (d ∷ dispatchers) = d.dropped + total_dropped dispatchers

pub record TelemetryExtras (F : Type 0) : Type 0 where
  pub secondary_model_queue_size : ℕ
  pub secondary_model_queue_maxsize : ℕ
  pub secondary_model_queue_usage_percent : F
  pub secondary_model_predictions_dropped_total : ℕ

unfoldable pub telemetry_extras :
    {F P : Type 0} → Rounding F → List (BackgroundPublisher P) → TelemetryExtras F
telemetry_extras rounding dispatchers =
    let queue_size = total_size dispatchers in
    let queue_maxsize = total_maxsize dispatchers in
    record {
      secondary_model_queue_size = queue_size;
      secondary_model_queue_maxsize = queue_maxsize;
      secondary_model_queue_usage_percent =
          if ltb 0 queue_maxsize
          then rounding.percent queue_size queue_maxsize
          else rounding.zero_float;
      secondary_model_predictions_dropped_total = total_dropped dispatchers;
    }

module _ {F : Type 0} ⦃f : Floats F⦄ (scores : Scores F) where
  -- `_severity_from_prediction` of the shadow, which has its own copy.
  unfoldable pub shadow_severity : String → F → String
  shadow_severity label confidence =
      if label == "Normal Traffic"
      then "low"
      else if scores.at_least confidence alert_confidence_threshold
      then "high"
      else "medium"

module _ {F : Type 0} ⦃f : Floats F⦄ (scores : Scores F) (texts : Texts) where
  unfoldable pub shadow_event : Prediction F → ShadowContext → ShadowEvent F
  unfolding shadow_severity prediction_event_id
  shadow_event result context = record {
    event_id =
        prediction_event_id texts context.session_key context.event_type result.label
          context.timestamp;
    ts = context.timestamp;
    source_ip = context.src_ip;
    destination_ip = context.dst_ip;
    source_port = context.src_port;
    destination_port = context.dst_port;
    protocol = context.protocol;
    model = shadow_model result.model_key;
    prediction = result.label;
    confidence = result.confidence;
    severity = shadow_severity scores result.label result.confidence;
    action = "shadow";
    detection_method = context.event_type;
    session_id = context.session_key;
    risk_score = result.confidence;
    is_final = context.is_final;
  }

  -- `__call__`, at the time `now`.
  unfoldable pub publish_shadow :
      ShadowEventPublisher F → Prediction F → ShadowContext → Time → ShadowEventPublisher F
  unfolding shadow_event publish record_secondary_model_prediction
  publish_shadow p result context now = record {
    event_publisher = publish p.event_publisher (shadow_event result context);
    telemetry_collector = elim p.telemetry_collector [
      | none ↦ none
      | some c ↦ some (record_secondary_model_prediction c now)
    ];
  }
