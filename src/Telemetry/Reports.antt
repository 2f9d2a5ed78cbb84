-- ===== src/Telemetry/Reports.antt =====
-- A snapshot against everything that was reported to the collector.
use smart_ids.Base.{
  ℕ, ◌-◌, ◌≤◌, ◌<◌, ◌≡◌, refl, ap, sym, ◌∙◌, Bool, false, List, [], ◌∷◌, ◌++◌, length, filter, ltb,
  arith, length-append,
}
use smart_ids.Packet.{Time}
use smart_ids.Window.Laws.{IsWindow-nil}
use smart_ids.Traffic.Session.{TrafficSession}
use smart_ids.Telemetry.{
  Rounding, EngineTelemetryCollector, trim_all, new_collector, record_packet_received,
  record_packet_processed, record_packet_dropped, record_ml_prediction,
  record_secondary_model_prediction, snapshot,
}
use smart_ids.Telemetry.Streams.{
  own_time, within_window, Event, received, processed, dropped, secondary, predicted, is_received,
  is_dropped, is_secondary, is_predicted, is_processed, times_of, IsStream, trim-IsStream,
  hit-IsStream, miss-IsStream, stream-report, times_of-hit, times_of-miss,
}

miss-processed :
    (events : List (Event × Time)) (e : Event) (t : Time) (total : ℕ)
    → is_processed e ≡ false
    → total ≡ length (times_of is_processed events)
    → total ≡ length (times_of is_processed (events ++ (e, t) ∷ []))
miss-processed events e t total isnt h =
    h ∙ sym (ap length (times_of-miss is_processed events e t isnt))

-- How many events of this kind the window before `t` holds.
abbrev pub recent : Time → (Event → Bool) → List (Event × Time) → Time → ℕ
recent window p events t = length (filter (within_window window t) (times_of p events))

module _ {F : Type 0} (rounding : Rounding F) where
  unfoldable pub report : EngineTelemetryCollector F → Event → Time → EngineTelemetryCollector F
  report c received now = record_packet_received c now
  report c processed now = record_packet_processed c
  report c dropped now = record_packet_dropped c now
  report c secondary now = record_secondary_model_prediction c now
  report c (predicted duration) now = record_ml_prediction rounding c duration now

  -- A collector to which the events were reported, in the order of their times, with snapshots
  -- taken in between, the last call at `now`.
  pub data Run (window : Time) (exchanges : ℕ)
      : EngineTelemetryCollector F → List (Event × Time) → Time → Type 0 where
    start : Run window exchanges (new_collector rounding window exchanges) [] 0
    reported :
        {c : EngineTelemetryCollector F} {events : List (Event × Time)} {now : Time}
        → Run window exchanges c events now
        → (e : Event) (t : Time) → now ≤ t
        → Run window exchanges (report c e t) (events ++ (e, t) ∷ []) t
    looked :
        {c : EngineTelemetryCollector F} {events : List (Event × Time)} {now : Time}
        → Run window exchanges c events now
        → (size maxsize : ℕ) (sessions : List (TrafficSession F)) (t : Time) → now ≤ t
        → Run window exchanges (snapshot rounding c size maxsize sessions t).0 events t

  -- The four streams of a collector, and the counter that has no times.
  record Follows (window now : Time) (c : EngineTelemetryCollector F) (events : List (Event × Time))
      : Type 0 where
    same_window : c.packet_window ≡ window
    receipts :
        IsStream is_received window now c.packets_received_total c.packet_received_times events
    drops : IsStream is_dropped window now c.packets_dropped_total c.packet_dropped_times events
    predictions :
        IsStream is_predicted window now c.ml_predictions_total c.ml_prediction_times events
    secondaries :
        IsStream is_secondary window now c.secondary_model_predictions_total
          c.secondary_model_prediction_times events
    processes : c.packets_processed_total ≡ length (times_of is_processed events)

  module _ {window : Time} (positive : 0 < window) where
    report-Follows :
        (c : EngineTelemetryCollector F) (events : List (Event × Time)) (now : Time) (e : Event)
        (t : Time)
        → now ≤ t
        → Follows window now c events
        → Follows window t (report c e t) (events ++ (e, t) ∷ [])
    unfolding report record_packet_received record_packet_processed record_packet_dropped
        record_secondary_model_prediction record_ml_prediction
    report-Follows c events now received t h v = record {
      same_window = v.same_window;
      receipts =
          rw v.same_window (hit-IsStream is_received window positive received t refl v.receipts h);
      drops = miss-IsStream is_dropped window positive received t refl v.drops h;
      predictions = miss-IsStream is_predicted window positive received t refl v.predictions h;
      secondaries = miss-IsStream is_secondary window positive received t refl v.secondaries h;
      processes = miss-processed events received t _ refl v.processes;
    }
    report-Follows c events now processed t h v = record {
      same_window = v.same_window;
      receipts = miss-IsStream is_received window positive processed t refl v.receipts h;
      drops = miss-IsStream is_dropped window positive processed t refl v.drops h;
      predictions = miss-IsStream is_predicted window positive processed t refl v.predictions h;
      secondaries = miss-IsStream is_secondary window positive processed t refl v.secondaries h;
      processes = omega (
        arith,
        v.processes,
        ap length (times_of-hit is_processed events processed t refl),
        length-append (times_of is_processed events) (t ∷ []),
      );
    }
    report-Follows c events now dropped t h v = record {
      same_window = v.same_window;
      receipts = miss-IsStream is_received window positive dropped t refl v.receipts h;
      drops = rw v.same_window (hit-IsStream is_dropped window positive dropped t refl v.drops h);
      predictions = miss-IsStream is_predicted window positive dropped t refl v.predictions h;
      secondaries = miss-IsStream is_secondary window positive dropped t refl v.secondaries h;
      processes = miss-processed events dropped t _ refl v.processes;
    }
    report-Follows c events now secondary t h v = record {
      same_window = v.same_window;
      receipts = miss-IsStream is_received window positive secondary t refl v.receipts h;
      drops = miss-IsStream is_dropped window positive secondary t refl v.drops h;
      predictions = miss-IsStream is_predicted window positive secondary t refl v.predictions h;
      secondaries =
          rw v.same_window
            (hit-IsStream is_secondary window positive secondary t refl v.secondaries h);
      processes = miss-processed events secondary t _ refl v.processes;
    }
    report-Follows c events now (predicted d) t h v = record {
      same_window = v.same_window;
      receipts = miss-IsStream is_received window positive (predicted d) t refl v.receipts h;
      drops = miss-IsStream is_dropped window positive (predicted d) t refl v.drops h;
      predictions =
          rw v.same_window
            (hit-IsStream is_predicted window positive (predicted d) t refl v.predictions h);
      secondaries = miss-IsStream is_secondary window positive (predicted d) t refl v.secondaries h;
      processes = miss-processed events (predicted d) t _ refl v.processes;
    }

    trim_all-Follows :
        (c : EngineTelemetryCollector F) (events : List (Event × Time)) (now t : Time)
        → now ≤ t
        → Follows window now c events
        → Follows window t (trim_all c t) events
    unfolding trim_all
    trim_all-Follows c events now t h v = record {
      same_window = v.same_window;
      receipts = rw v.same_window (trim-IsStream is_received window positive t v.receipts h);
      drops = rw v.same_window (trim-IsStream is_dropped window positive t v.drops h);
      predictions = rw v.same_window (trim-IsStream is_predicted window positive t v.predictions h);
      secondaries = rw v.same_window (trim-IsStream is_secondary window positive t v.secondaries h);
      processes = v.processes;
    }

    new_collector-Follows : (n : ℕ) → Follows window 0 (new_collector rounding window n) []
    unfolding new_collector times_of
    new_collector-Follows n = record {
      same_window = refl;
      receipts = record { counted = refl; tracked = IsWindow-nil own_time (window - 1) };
      drops = record { counted = refl; tracked = IsWindow-nil own_time (window - 1) };
      predictions = record { counted = refl; tracked = IsWindow-nil own_time (window - 1) };
      secondaries = record { counted = refl; tracked = IsWindow-nil own_time (window - 1) };
      processes = refl;
    }

    Run-Follows :
        {n : ℕ} {c : EngineTelemetryCollector F} {events : List (Event × Time)} {now : Time}
        → Run window n c events now
        → Follows window now c events
    unfolding snapshot
    Run-Follows {n} Run.start = new_collector-Follows n
    Run-Follows (Run.reported {c} {events} {now} r e t h) =
        report-Follows c events now e t h (Run-Follows r)
    Run-Follows (Run.looked {c} {events} {now} r size maxsize sessions t h) =
        trim_all-Follows c events now t h (Run-Follows r)

    -- A snapshot tells the truth: whatever was reported, in the order of time, with snapshots in
    -- between, each total is the number of all events of its kind, each count of the last window is
    -- the number of those less than `window` before the snapshot, and a loss of packets is detected
    -- exactly when one of those is a drop.
    pub snapshot_exact :
        {n : ℕ} {c : EngineTelemetryCollector F} {events : List (Event × Time)} {now : Time}
        → Run window n c events now
        → (size maxsize : ℕ) (sessions : List (TrafficSession F)) (t : Time) → now ≤ t
        → let s = (snapshot rounding c size maxsize sessions t).1 in
          (s.received_total ≡ length (times_of is_received events))
          × (s.received_per_window ≡ recent window is_received events t)
          × (s.processed_total ≡ length (times_of is_processed events))
          × (s.dropped_total ≡ length (times_of is_dropped events))
          × (s.packet_loss_detected ≡ ltb 0 (recent window is_dropped events t))
          × (s.predictions_total ≡ length (times_of is_predicted events))
          × (s.predictions_per_window ≡ recent window is_predicted events t)
          × (s.secondary_total ≡ length (times_of is_secondary events))
          × (s.secondary_per_window ≡ recent window is_secondary events t)
    unfolding snapshot trim_all
    snapshot_exact {c = c} r size maxsize sessions t h =
        let v = Run-Follows r in
        (
          v.receipts.counted,
          rw v.same_window (stream-report is_received window positive t v.receipts h),
          v.processes,
          v.drops.counted,
          rw v.same_window (ap (ltb 0) (stream-report is_dropped window positive t v.drops h)),
          v.predictions.counted,
          rw v.same_window (stream-report is_predicted window positive t v.predictions h),
          v.secondaries.counted,
          rw v.same_window (stream-report is_secondary window positive t v.secondaries h),
        )
