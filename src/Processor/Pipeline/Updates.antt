-- ===== src/Processor/Pipeline/Updates.antt =====
-- Which session updates `process` publishes.
use smart_ids.Base.{
  ◌≡◌, refl, ap, sym, ◌∙◌, Bool, true, false, Option, none, some, List, [], ◌∷◌, ◌++◌, map,
  if◌then◌else◌, Bool-cases, inl, inr,
}
use smart_ids.Dict.{get}
use smart_ids.Packet.{PacketData}
use smart_ids.Traffic.Stats.{Floats}
use smart_ids.Traffic.Session.{key_eq, TrafficSession, SessionKey, from_packet, is_finished}
use smart_ids.Traffic.Builder.{
  Finalized, SessionBuilder, process_packet, drain_finalized_sessions, should_predict,
}
use smart_ids.Traffic.Builder.Expiry.{stale_sessions}
use smart_ids.Traffic.Builder.Turn.{
  IsSettled, flow_end, session_of, drained_builder, is_due, ended_of, turn, turn-IsSettled,
  process_packet-get, process_packet-pending, should_predict-sessions,
  finalize_session_if_needed-some,
}
use smart_ids.Heuristic.{HeuristicDecision}
use smart_ids.Heuristic.Evaluate.{evaluate_packet}
use smart_ids.Capture.Extractor.{extract}
use smart_ids.Forwarding.Contracts.{Prediction, SessionUpsert, build_session_upsert_payload}
use smart_ids.Processor.Outbox.{publish, publish_all, publish_all-append}
use smart_ids.Processor.Pipeline.Reporting.{
  Engine, Moment, Reports, publish_session_update, report_prediction, note_processed,
}
use smart_ids.Processor.Pipeline.{
  PacketProcessor, report_finalized, report_all, inspect, predict_active, to_list, process,
  finish_all,
}
use Prim.Native.String.{String}
use smart_ids.Dict.{Dict}

module _ {F S : Type 0} ⦃f : Floats F⦄ (engine : Engine F S) where
  -- The update for a session in this state, with this predictor.
  unfoldable pub update_with :
      (Dict String F → Option (Prediction F))
      → HeuristicDecision
      → SessionKey
      → TrafficSession F
      → String
      → SessionUpsert F
  update_with predictor decision key session state =
      build_session_upsert_payload engine.means.scores engine.means.texts key session state
        (predictor (extract engine.statistics engine.is_finite session)) decision

  unfoldable pub final_update : HeuristicDecision → Finalized F → SessionUpsert F
  unfolding update_with
  final_update decision x =
      update_with engine.completed_flow_predictor decision x.session_key x.session x.reason

  unfoldable pub active_update : HeuristicDecision → SessionKey → TrafficSession F → SessionUpsert F
  unfolding update_with
  active_update decision key session =
      update_with engine.live_predictor decision key session "active"

  report_prediction-updates :
      (r : Reports F) (key : SessionKey) (session : TrafficSession F) (p : Option (Prediction F))
      (features : Dict String F) (event_type : String) (is_final : Bool) (moment : Moment)
      → (report_prediction engine r key session p features event_type is_final
          moment).session_update_publisher
        ≡ r.session_update_publisher
  unfolding report_prediction
  report_prediction-updates r key session none features event_type is_final moment = refl
  report_prediction-updates r key session (some p) features event_type is_final moment = refl

  report_finalized-updates :
      (r : Reports F) (x : Finalized F) (decision : HeuristicDecision) (moment : Moment)
      → (report_finalized engine r x decision moment).session_update_publisher
        ≡ publish r.session_update_publisher (final_update decision x)
  unfolding report_finalized publish_session_update final_update update_with
  report_finalized-updates r x decision moment =
      report_prediction-updates _ x.session_key x.session _ _ _ _ moment

  report_all-updates :
      (r : Reports F) (xs : List (Finalized F)) (decision : HeuristicDecision) (moment : Moment)
      → (report_all engine r xs decision moment).session_update_publisher
        ≡ publish_all r.session_update_publisher (map (final_update decision) xs)
  unfolding report_all publish_all
  report_all-updates r [] decision moment = refl
  report_all-updates r (x ∷ xs) decision moment =
      report_all-updates (report_finalized engine r x decision moment) xs decision moment
      ∙ ap (λ c. publish_all c (map (final_update decision) xs))
          (report_finalized-updates r x decision moment)

  predict_active-updates :
      (p : PacketProcessor F S) (key : SessionKey) (session : TrafficSession F)
      (decision : HeuristicDecision) (moment : Moment)
      → (predict_active engine p key session decision moment).reports.session_update_publisher
        ≡ publish p.reports.session_update_publisher (active_update decision key session)
  unfolding predict_active publish_session_update active_update update_with
  predict_active-updates p key session decision moment =
      report_prediction-updates _ key session _ _ _ _ moment

  ended_of-if :
      (b : SessionBuilder F) (packet : PacketData)
      → to_list (ended_of b packet) ≡ (
          if is_finished (session_of b packet)
          then flow_end (session_of b packet) packet ∷ []
          else [])
  unfolding drain_finalized_sessions
  ended_of-if b packet =
      let session = session_of b packet in
      let b3 = (should_predict (drained_builder b packet) packet).0 in
      let found : get b3.sessions (from_packet packet) ≡ some session =
        ap (λ d. get d (from_packet packet))
          (should_predict-sessions (drained_builder b packet) packet).0
        ∙ process_packet-get b packet in
      let same = finalize_session_if_needed-some b3 packet session found in
      elim (Bool-cases (is_finished session)) [
        | inl e ↦ rw (same, e) refl
        | inr e ↦ rw (same, e) refl
      ]

  -- The updates for a packet, where the decision on it is this.
  unfoldable pub updates_of :
      SessionBuilder F → PacketData → HeuristicDecision → List (SessionUpsert F)
  updates_of b packet decision =
      map (final_update decision) (stale_sessions packet.timestamp b.sessions)
      ++ ((if is_due b packet
            then active_update decision (from_packet packet) (session_of b packet) ∷ []
            else [])
          ++ (if is_finished (session_of b packet)
              then final_update decision (flow_end (session_of b packet) packet) ∷ []
              else []))

  -- What is published if a prediction is due.
  active-updates :
      (q : PacketProcessor F S) (key : SessionKey) (session : TrafficSession F)
      (decision : HeuristicDecision) (moment : Moment) (due : Bool)
      → (if due
          then predict_active engine q key session decision moment
          else q).reports.session_update_publisher
        ≡ publish_all q.reports.session_update_publisher
            (if due then active_update decision key session ∷ [] else [])
  unfolding publish_all
  active-updates q key session decision moment true =
      predict_active-updates q key session decision moment
  active-updates q key session decision moment false = refl

  -- The three parts of `process` that publish updates, one after the other.
  process-parts :
      (p : PacketProcessor F S) (packet : PacketData) (moment : Moment)
      → (let decision = (inspect engine p packet moment).1 in
          let b = (inspect engine p packet moment).0.session_builder in
          (process engine p packet moment).reports.session_update_publisher
          ≡ publish_all
              (publish_all
                (publish_all
                  (inspect engine p packet moment).0.reports.session_update_publisher
                  (map (final_update decision) (process_packet b packet).0.pending_finalizations))
                (if is_due b packet
                  then active_update decision (from_packet packet) (session_of b packet) ∷ []
                  else []))
              (map (final_update decision) (to_list (ended_of b packet))))
  unfolding process note_processed drain_finalized_sessions
  process-parts p packet moment =
      let (p1, decision) = inspect engine p packet moment in
      let b = p1.session_builder in
      let due = is_due b packet in
      let expired = (process_packet b packet).0.pending_finalizations in
      let p2 = finish_all engine p1 expired decision moment in
      let p3 =
        if due
        then predict_active engine p2 (from_packet packet) (session_of b packet) decision moment
        else p2 in
      let active =
        if due
        then active_update decision (from_packet packet) (session_of b packet) ∷ []
        else [] in
      let finals = map (final_update decision) (to_list (ended_of b packet)) in
      report_all-updates p3.reports (to_list (ended_of b packet)) decision moment
      ∙ ap (λ c. publish_all c finals)
          (active-updates p2 (from_packet packet) (session_of b packet) decision moment due
            ∙ ap (λ c. publish_all c active)
                (report_all-updates p1.reports expired decision moment))

  -- The session updates that a packet causes are these and no others, in this order: one for each
  -- session that is stale at the packet's time, with why it ended; one for the packet's session as
  -- an active one, if a prediction is due; and one for the packet's session as ended, if it has
  -- finished. The builder, which had each session once and no finalized session waiting, is so
  -- again, so that no finalized session is lost or published twice.
  pub process-updates :
      (p : PacketProcessor F S) (packet : PacketData) (moment : Moment)
      → IsSettled p.session_builder
      → ((process engine p packet moment).reports.session_update_publisher
          ≡ publish_all p.reports.session_update_publisher (
              updates_of p.session_builder packet
                (evaluate_packet engine.order p.heuristic_detector packet).1))
        × IsSettled (process engine p packet moment).session_builder
  unfolding process inspect turn updates_of
  process-updates p packet moment h =
      let b = p.session_builder in
      let decision = (evaluate_packet engine.order p.heuristic_detector packet).1 in
      let active =
        if is_due b packet
        then active_update decision (from_packet packet) (session_of b packet) ∷ []
        else [] in
      let stale = map (final_update decision) (stale_sessions packet.timestamp b.sessions) in
      let ended =
        if is_finished (session_of b packet)
        then final_update decision (flow_end (session_of b packet) packet) ∷ []
        else [] in
      let start = p.reports.session_update_publisher in
      let same : map (final_update decision) (to_list (ended_of b packet)) ≡ ended =
        ap (map (final_update decision)) (ended_of-if b packet)
        ∙ map-if decision (is_finished (session_of b packet)) in
      (
        process-parts p packet moment
            ∙ ap
                (λ l.
                  publish_all (publish_all (publish_all start l) active)
                    (map (final_update decision) (to_list (ended_of b packet))))
                (ap (map (final_update decision)) (process_packet-pending b packet h))
            ∙ ap (publish_all (publish_all (publish_all start stale) active)) same
            ∙ sym (
                publish_all-append start stale (active ++ ended)
                ∙ publish_all-append (publish_all start stale) active ended),
        turn-IsSettled b packet h,
      )
    where
      map-if :
          (decision : HeuristicDecision) (done : Bool)
          → map
              (final_update decision)
              (if done then flow_end (session_of p.session_builder packet) packet ∷ [] else [])
            ≡ (if done
                then final_update decision (flow_end (session_of p.session_builder packet) packet)
                  ∷ []
                else [])
      map-if decision true = refl
      map-if decision false = refl
