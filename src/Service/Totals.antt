-- ===== src/Service/Totals.antt =====
-- What the calls of the processor do to the totals of the collector.
use smart_ids.Base.{
  ℕ, ◌+◌, ◌≡◌, refl, ap, ◌∙◌, Bool, true, false, Option, none, some, List, [], ◌∷◌, String,
  if◌then◌else◌, Option-cases, inl, inr,
}
use smart_ids.Dict.{Dict}
use smart_ids.Packet.{PacketData}
use smart_ids.Traffic.Stats.{Floats}
use smart_ids.Traffic.Session.{SessionKey, TrafficSession, from_packet}
use smart_ids.Traffic.Builder.{Finalized, process_packet}
use smart_ids.Traffic.Builder.Turn.{is_due, session_of, ended_of}
use smart_ids.Heuristic.{HeuristicDecision}
use smart_ids.Telemetry.{EngineTelemetryCollector, record_ml_prediction, record_packet_processed}
use smart_ids.Forwarding.Contracts.{Prediction}
use smart_ids.Processor.Pipeline.Reporting.{
  Engine, Moment, Reports, publish_session_update, report_prediction, note_processed,
}
use smart_ids.Processor.Pipeline.{
  PacketProcessor, report_finalized, report_all, inspect, predict_active, to_list, process,
  finish_all,
}

-- The packets that were received, processed and dropped, where there is a collector.
pub record PacketTotals : Type 0 where
  pub received : ℕ
  pub processed : ℕ
  pub dropped : ℕ

abbrev pub totals : {F : Type 0} → Option (EngineTelemetryCollector F) → Option PacketTotals
totals none = none
totals (some c) = some (record {
  received = c.packets_received_total;
  processed = c.packets_processed_total;
  dropped = c.packets_dropped_total;
})

abbrev pub totals_of : {F : Type 0} → Reports F → Option PacketTotals
totals_of reports = totals reports.telemetry_collector

abbrev pub one_processed : Option PacketTotals → Option PacketTotals
one_processed none = none
one_processed (some t) = some (record t { processed = t.processed + 1 })

totals-note_processed :
    {F : Type 0} (reports : Reports F)
    → totals_of (note_processed reports) ≡ one_processed (totals_of reports)
unfolding note_processed record_packet_processed
totals-note_processed reports = elim (Option-cases reports.telemetry_collector) [
  | inl e ↦ simp (note_processed, e) refl
  | inr (c, e) ↦ simp (note_processed, e) refl
]

module _ {F S : Type 0} ⦃f : Floats F⦄ (engine : Engine F S) where
  totals-report_prediction :
      (reports : Reports F) (key : SessionKey) (session : TrafficSession F)
      (p : Option (Prediction F)) (features : Dict String F) (event_type : String) (is_final : Bool)
      (moment : Moment)
      → totals_of
          (report_prediction engine reports key session p features event_type is_final moment)
        ≡ totals_of reports
  unfolding report_prediction record_ml_prediction
  totals-report_prediction reports key session none features event_type is_final moment = refl
  totals-report_prediction reports key session (some p) features event_type is_final moment =
      elim (Option-cases reports.telemetry_collector) [
        | inl e ↦ simp (report_prediction, e) refl
        | inr (c, e) ↦ simp (report_prediction, e) refl
      ]

  totals-report_all :
      (reports : Reports F) (xs : List (Finalized F)) (decision : HeuristicDecision)
      (moment : Moment)
      → totals_of (report_all engine reports xs decision moment) ≡ totals_of reports
  unfolding report_all report_finalized publish_session_update
  totals-report_all reports [] decision moment = refl
  totals-report_all reports (x ∷ xs) decision moment =
      totals-report_all (report_finalized engine reports x decision moment) xs decision moment
      ∙ totals-report_prediction _ x.session_key x.session _ _ _ _ moment

  totals-predict_active :
      (p : PacketProcessor F S) (key : SessionKey) (session : TrafficSession F)
      (decision : HeuristicDecision) (moment : Moment) (due : Bool)
      → totals_of (if due then predict_active engine p key session decision moment else p).reports
        ≡ totals_of p.reports
  unfolding predict_active publish_session_update
  totals-predict_active p key session decision moment false = refl
  totals-predict_active p key session decision moment true =
      totals-report_prediction _ key session _ _ _ _ moment

  -- A packet is counted as processed once.
  pub totals-process :
      (p : PacketProcessor F S) (packet : PacketData) (moment : Moment)
      → totals_of (process engine p packet moment).reports ≡ one_processed (totals_of p.reports)
  unfolding process inspect
  totals-process p packet moment =
      let (p1, decision) = inspect engine p packet moment in
      let b = p1.session_builder in
      let expired = (process_packet b packet).0.pending_finalizations in
      let p2 = finish_all engine p1 expired decision moment in
      let p3 =
        if is_due b packet
        then predict_active engine p2 (from_packet packet) (session_of b packet) decision moment
        else p2 in
      let p4 = finish_all engine p3 (to_list (ended_of b packet)) decision moment in
      totals-note_processed p4.reports
      ∙ ap one_processed (
          totals-report_all p3.reports (to_list (ended_of b packet)) decision moment
          ∙ totals-predict_active p2 (from_packet packet) (session_of b packet) decision moment
              (is_due b packet)
          ∙ totals-report_all p1.reports expired decision moment)
