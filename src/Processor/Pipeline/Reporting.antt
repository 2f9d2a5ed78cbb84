-- ===== src/Processor/Pipeline/Reporting.antt =====
-- packet_capture/processor/packet_processor.py: what the processor publishes of sessions and
-- predictions, and what it tells the telemetry collector.
use smart_ids.Base.{Bool, Option, none, some, String}
use smart_ids.Dict.{Dict}
use smart_ids.Packet.{Time}
use smart_ids.Traffic.Stats.{Floats}
use smart_ids.Traffic.Session.{SessionKey, TrafficSession}
use smart_ids.Heuristic.{HeuristicDecision}
use smart_ids.Heuristic.Prune.{SetOrder}
use smart_ids.Capture.Statistics.{Statistics}
use smart_ids.Telemetry.{
  Rounding, EngineTelemetryCollector, record_ml_prediction, record_packet_processed,
}
use smart_ids.Forwarding.Contracts.{
  Prediction, IdsEvent, SessionUpsert, build_ids_event_payload, build_session_upsert_payload,
}
use smart_ids.Processor.Outbox.{Publisher, publish}
use smart_ids.Processor.Respond.Handlers.{Means}

-- What the processor uses beside its state. A predictor is its primary model, as far as a caller
-- sees: it returns nothing where it is not enabled.
pub record Engine (F S : Type 0) : Type 0 where
  pub means : Means F S
  pub order : SetOrder
  pub statistics : Statistics F
  pub is_finite : F → Bool
  pub rounding : Rounding F
  pub live_predictor : Dict String F → Option (Prediction F)
  pub completed_flow_predictor : Dict String F → Option (Prediction F)

-- What the clocks say during a call, `time.time()` and the difference of two `time.perf_counter()`.
pub record Moment : Type 0 where
  pub now : Time
  pub latency : Time

pub record Reports (F : Type 0) : Type 0 where
  pub session_update_publisher : Publisher (SessionUpsert F)
  pub event_publisher : Publisher (IdsEvent F)
  pub telemetry_collector : Option (EngineTelemetryCollector F)

module _ {F S : Type 0} ⦃f : Floats F⦄ (engine : Engine F S) where
  -- `_publish_session_update`
  unfoldable pub publish_session_update :
      Reports F
      → SessionKey
      → TrafficSession F
      → String
      → Option (Prediction F)
      → HeuristicDecision
      → Reports F
  unfolding build_session_upsert_payload publish
  publish_session_update reports key session session_state prediction decision = record reports {
    session_update_publisher = publish reports.session_update_publisher (
        build_session_upsert_payload engine.means.scores engine.means.texts key session
          session_state prediction decision);
  }

  -- The call of `record_ml_prediction`, and `_publish_prediction_event`, where there is a prediction.
  unfoldable pub report_prediction :
      Reports F
      → SessionKey
      → TrafficSession F
      → Option (Prediction F)
      → Dict String F
      → String
      → Bool
      → Moment
      → Reports F
  unfolding build_ids_event_payload publish record_ml_prediction
  report_prediction reports key session none features event_type is_final moment = reports
  report_prediction reports key session (some prediction) features event_type is_final moment =
      record reports {
        event_publisher = publish reports.event_publisher (
            build_ids_event_payload engine.means.scores engine.means.texts key session prediction
              features event_type is_final);
        telemetry_collector = elim reports.telemetry_collector [
          | none ↦ none
          | some c ↦ some (record_ml_prediction engine.rounding c moment.latency moment.now)
        ];
      }

unfoldable pub note_processed : {F : Type 0} → Reports F → Reports F
unfolding record_packet_processed
note_processed reports = record reports {
  telemetry_collector = elim reports.telemetry_collector [
    | none ↦ none
    | some c ↦ some (record_packet_processed c)
  ];
}
