-- ===== src/Tests/Telemetry.antt =====
-- The telemetry collector, with whole numbers in place of floats.
use smart_ids.Base.{ℕ, ◌*◌, ◌≡◌, [], ◌∷◌, List, length, ltb, arith}
use smart_ids.Packet.{Time, second}
use smart_ids.Telemetry.{EngineTelemetryCollector, new_collector, snapshot}
use smart_ids.Telemetry.Streams.{
  Event, received, dropped, times_of, is_received, is_processed, is_dropped, is_predicted,
  is_secondary,
}
use smart_ids.Telemetry.Reports.{Run, report, recent, snapshot_exact}
use smart_ids.Tests.Data.{rounding}

abbrev window : Time
window = 60 * second

abbrev events : List (Event × Time)
events = (received, second) ∷ (dropped, 2 * second) ∷ []

abbrev collector : EngineTelemetryCollector ℕ
collector =
    report rounding (report rounding (new_collector rounding window 8) received second) dropped
      (2 * second)

collector-Run : Run rounding window 8 collector events (2 * second)
collector-Run =
    Run.reported (Run.reported (Run.start) received second (omega arith)) dropped (2 * second)
      (omega arith)

snapshot_exact_example :
    let s = (snapshot rounding collector 3 10_000 [] (61 * second)).1 in
    (s.received_total ≡ length (times_of is_received events))
    × (s.received_per_window ≡ recent window is_received events (61 * second))
    × (s.processed_total ≡ length (times_of is_processed events))
    × (s.dropped_total ≡ length (times_of is_dropped events))
    × (s.packet_loss_detected ≡ ltb 0 (recent window is_dropped events (61 * second)))
    × (s.predictions_total ≡ length (times_of is_predicted events))
    × (s.predictions_per_window ≡ recent window is_predicted events (61 * second))
    × (s.secondary_total ≡ length (times_of is_secondary events))
    × (s.secondary_per_window ≡ recent window is_secondary events (61 * second))
snapshot_exact_example =
    snapshot_exact rounding (omega arith) collector-Run 3 10_000 [] (61 * second) (omega arith)
