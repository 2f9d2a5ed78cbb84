-- ===== src/Processor/Pipeline.antt =====
-- packet_capture/processor/packet_processor.py: `process`, which takes a packet through the
-- detectors, the session builder, the predictors and the publishers. The predictors are parameters.
pub mod Reporting
pub mod Updates
pub mod Announced
pub mod Quiet
use smart_ids.Base.{
  ◌≡◌, Bool, true, false, Option, none, some, List, [], ◌∷◌, ℕ, String, if◌then◌else◌,
}
use smart_ids.Dict.{Dict}
use smart_ids.Packet.{PacketData, Time}
use smart_ids.Traffic.Stats.{Floats}
use smart_ids.Traffic.Session.{SessionKey, TrafficSession, from_packet}
use smart_ids.Traffic.Builder.{
  SessionBuilder, Finalized, process_packet, drain_finalized_sessions, should_predict,
  finalize_session_if_needed,
}
use smart_ids.Heuristic.{HeuristicDetector, HeuristicDecision}
use smart_ids.Heuristic.Evaluate.{evaluate_packet}
use smart_ids.Response.Policy.{ResponsePolicy, record_bruteforce_attempt}
use smart_ids.Response.Blocker.{Reply}
use smart_ids.Capture.Features.{FeatureStore, add_feature}
use smart_ids.Capture.Extractor.{extract}
use smart_ids.Telemetry.{record_packet_processed}
use smart_ids.Forwarding.Contracts.{Prediction}
use smart_ids.Processor.{BackendCommand, CommandProcessor, apply_backend_command}
use smart_ids.Processor.Respond.{Responder}
use smart_ids.Processor.Respond.Handlers.{
  watch_source, respond_to_heuristic, respond_to_brute_force, respond_to_prediction,
}
use smart_ids.Processor.Pipeline.Reporting.{
  Engine, Moment, Reports, publish_session_update, report_prediction, note_processed,
}

pub record HeuristicEvent : Type 0 where
  pub packet : PacketData
  pub score : ℕ
  pub reason : String

pub record MlEvent (F : Type 0) : Type 0 where
  pub src_ip : String
  pub dst_ip : String
  pub src_port : Option ℕ
  pub dst_port : Option ℕ
  pub protocol : ℕ
  pub label : String
  pub confidence : F
  pub encoded : ℕ
  pub timestamp : Time

pub record PacketProcessor (F S : Type 0) : Type 0 where
  pub heuristic_detector : HeuristicDetector
  pub response_policy : ResponsePolicy
  pub session_builder : SessionBuilder F
  pub feature_store : FeatureStore (Dict String F)
  pub heuristic_events : FeatureStore HeuristicEvent
  pub ml_events : FeatureStore (MlEvent F)
  pub responder : Responder F S
  pub reports : Reports F

unfoldable pub ml_event : {F : Type 0} → TrafficSession F → Prediction F → MlEvent F
ml_event session prediction = record {
  src_ip = session.src_ip;
  dst_ip = session.dst_ip;
  src_port = session.src_port;
  dst_port = session.dst_port;
  protocol = session.protocol;
  label = prediction.label;
  confidence = prediction.confidence;
  encoded = prediction.encoded;
  timestamp = session.last_seen;
}

abbrev pub to_list : {F : Type 0} → Option (Finalized F) → List (Finalized F)
to_list none = []
to_list (some x) = x ∷ []

module _ {F S : Type 0} ⦃f : Floats F⦄ (engine : Engine F S) where
  -- The prediction for a session that is over, and what is published of it.
  unfoldable pub report_finalized : Reports F → Finalized F → HeuristicDecision → Moment → Reports F
  unfolding extract publish_session_update report_prediction
  report_finalized reports finalized decision moment =
      let session = finalized.session in
      let features = extract engine.statistics engine.is_finite session in
      let prediction = engine.completed_flow_predictor features in
      report_prediction engine
        (publish_session_update engine reports finalized.session_key session finalized.reason
          prediction decision)
        finalized.session_key session prediction features "ml_completed_flow_prediction" true moment

  unfoldable pub respond_to_finalized :
      ResponsePolicy → Responder F S → Finalized F → Moment → Responder F S
  unfolding extract respond_to_prediction
  respond_to_finalized policy responder finalized moment =
      let session = finalized.session in
      elim (engine.completed_flow_predictor (extract engine.statistics engine.is_finite session)) [
        | none ↦ responder
        | some prediction ↦
            respond_to_prediction engine.means policy true responder finalized.session_key session
              prediction moment.now
      ]

  -- `_process_finalized_session` for each session of a list; the detectors are not changed.
  unfoldable pub report_all :
      Reports F → List (Finalized F) → HeuristicDecision → Moment → Reports F
  unfolding report_finalized
  report_all reports [] decision moment = reports
  report_all reports (x ∷ xs) decision moment =
      report_all (report_finalized reports x decision moment) xs decision moment

  unfoldable pub respond_to_all :
      ResponsePolicy → Responder F S → List (Finalized F) → Moment → Responder F S
  unfolding respond_to_finalized
  respond_to_all policy responder [] moment = responder
  respond_to_all policy responder (x ∷ xs) moment =
      respond_to_all policy (respond_to_finalized policy responder x moment) xs moment

  -- The part of `process` before the sessions: the detectors and their responses.
  unfoldable pub inspect :
      PacketProcessor F S → PacketData → Moment → PacketProcessor F S × HeuristicDecision
  unfolding watch_source evaluate_packet record_bruteforce_attempt respond_to_heuristic
      respond_to_brute_force add_feature
  inspect p packet moment =
      let now = moment.now in
      let r1 = watch_source engine.means p.responder packet now in
      let (detector, decision) = evaluate_packet engine.order p.heuristic_detector packet in
      let (policy, brute_force_suspected) =
        record_bruteforce_attempt p.response_policy packet.src_ip packet.dst_ip packet.dst_port
          packet.timestamp in
      let event : HeuristicEvent = record {
        packet = packet;
        score = decision.score;
        reason = decision.reason;
      } in
      let r2 =
        if decision.suspicious
        then respond_to_heuristic engine.means policy r1 packet decision now
        else r1 in
      let r3 =
        if brute_force_suspected
        then respond_to_brute_force engine.means policy r2 packet now
        else r2 in
      (
        record p {
          heuristic_detector = detector;
          response_policy = policy;
          heuristic_events =
              if decision.suspicious
              then add_feature p.heuristic_events event
              else p.heuristic_events;
          responder = r3;
        },
        decision,
      )

  -- The part under `if self.session_builder.should_predict(packet)`.
  unfoldable pub predict_active :
      PacketProcessor F S
      → SessionKey
      → TrafficSession F
      → HeuristicDecision
      → Moment
      → PacketProcessor F S
  unfolding extract add_feature publish_session_update report_prediction respond_to_prediction
      ml_event
  predict_active p key session decision moment =
      let features = extract engine.statistics engine.is_finite session in
      let prediction = engine.live_predictor features in
      record p {
        feature_store = add_feature p.feature_store features;
        ml_events = elim prediction [
          | none ↦ p.ml_events
          | some x ↦ add_feature p.ml_events (ml_event session x)
        ];
        responder = elim prediction [
          | none ↦ p.responder
          | some x ↦
              respond_to_prediction engine.means p.response_policy false p.responder key session x
                moment.now
        ];
        reports =
            report_prediction engine
              (publish_session_update engine p.reports key session "active" prediction decision) key
              session prediction features "ml_live_prediction" false moment;
      }

  abbrev pub finish_all :
      PacketProcessor F S → List (Finalized F) → HeuristicDecision → Moment → PacketProcessor F S
  finish_all p finalized decision moment = record p {
    responder = respond_to_all p.response_policy p.responder finalized moment;
    reports = report_all p.reports finalized decision moment;
  }

  unfoldable pub process : PacketProcessor F S → PacketData → Moment → PacketProcessor F S
  unfolding inspect process_packet drain_finalized_sessions report_all respond_to_all should_predict
      predict_active finalize_session_if_needed note_processed from_packet
  process p packet moment =
      let (p1, decision) = inspect p packet moment in
      let (builder1, session) = process_packet p1.session_builder packet in
      let (builder2, expired) = drain_finalized_sessions builder1 in
      let p2 = finish_all p1 expired decision moment in
      let (builder3, due) = should_predict builder2 packet in
      let p3 = if due then predict_active p2 (from_packet packet) session decision moment else p2 in
      let (builder4, finalized) = finalize_session_if_needed builder3 packet in
      let p4 = finish_all p3 (to_list finalized) decision moment in
      record p4 { session_builder = builder4; reports = note_processed p4.reports }

  -- `apply_backend_command`, which changes the responder alone.
  unfoldable pub process_command :
      (String → String) → PacketProcessor F S → BackendCommand → Time → PacketProcessor F S × Reply
  unfolding apply_backend_command
  process_command lower p command now =
      let (commands, reply) =
        apply_backend_command engine.means.adapter engine.means.parse_ip lower p.responder.commands
          command now in
      (record p { responder = record p.responder { commands = commands } }, reply)
