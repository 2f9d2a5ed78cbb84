-- ===== src/Service/Conservation.antt =====
-- No packet is lost without being counted.
use smart_ids.Base.{
  ◌+◌, ◌≤◌, ◌≡◌, refl, ap, subst, ◌∙◌, Option, none, some, List, [], ◌∷◌, String, length, ltb,
  arith, tests, Bool-cases, Option-cases, inl, inr, length-append,
}
use smart_ids.Packet.{PacketData, Time}
use smart_ids.Traffic.Stats.{Floats}
use smart_ids.Telemetry.{
  EngineTelemetryCollector, record_packet_received, record_packet_dropped, snapshot, trim_all,
}
use smart_ids.Processor.{BackendCommand}
use smart_ids.Processor.Pipeline.Reporting.{Engine, Moment}
use smart_ids.Processor.Pipeline.{PacketProcessor, process_command}
use smart_ids.Service.{
  SnifferService, packet_queue_maxsize, collect, handle_packet, consume_packet,
  publish_engine_telemetry, apply_polled_command, poll_backend_commands,
}
use smart_ids.Service.Totals.{PacketTotals, totals, totals_of, one_processed, totals-process}

-- Every packet that was received was processed or dropped, or waits in the queue, which holds at
-- most 10000.
pub record IsConserved {F S : Type 0} (s : SnifferService F S) : Type 0 where
  pub counts : PacketTotals
  pub counted : totals_of s.processor.reports ≡ some counts
  pub conserved : counts.received ≡ counts.processed + counts.dropped + length s.packet_queue
  pub bounded : length s.packet_queue ≤ packet_queue_maxsize

never-none :
    {F : Type 0} (o : Option (EngineTelemetryCollector F)) (t : PacketTotals)
    → totals o ≡ some t
    → o ≡ none
    → ⊥
never-none o t h e =
    let k : ◌≡◌ {A = Option PacketTotals} none (some t) = subst (λ o. totals o ≡ some t) e h in cc

one_received : PacketTotals → PacketTotals
one_received t = record t { received = t.received + 1 }

received_dropped : PacketTotals → PacketTotals
received_dropped t = record t { received = t.received + 1; dropped = t.dropped + 1 }

module _ {F S : Type 0} where
  collect-received :
      (p : PacketProcessor F S) (now : Time) (t : PacketTotals)
      → totals_of p.reports ≡ some t
      → totals_of
          (collect (λ (c : EngineTelemetryCollector F). record_packet_received c now) p).reports
        ≡ some (one_received t)
  unfolding record_packet_received one_received
  collect-received p now t h = elim (Option-cases p.reports.telemetry_collector) [
    | inl e ↦ absurd (never-none _ t h e)
    | inr (c, e) ↦ simp e (ap counted_in (subst (λ o. totals o ≡ some t) e h))
  ]
    where
      counted_in : Option PacketTotals → Option PacketTotals
      counted_in none = none
      counted_in (some x) = some (one_received x)

  collect-dropped :
      (p : PacketProcessor F S) (now : Time) (t : PacketTotals)
      → totals_of p.reports ≡ some t
      → totals_of
          (collect
            (λ (c : EngineTelemetryCollector F). record_packet_dropped c now)
            (collect (λ (c : EngineTelemetryCollector F). record_packet_received c now) p)).reports
        ≡ some (received_dropped t)
  unfolding record_packet_received record_packet_dropped received_dropped
  collect-dropped p now t h = elim (Option-cases p.reports.telemetry_collector) [
    | inl e ↦ absurd (never-none _ t h e)
    | inr (c, e) ↦ simp e (ap counted_in (subst (λ o. totals o ≡ some t) e h))
  ]
    where
      counted_in : Option PacketTotals → Option PacketTotals
      counted_in none = none
      counted_in (some x) = some (received_dropped x)

  handle_packet-IsConserved :
      (s : SnifferService F S) (packet : Option PacketData) (now : Time)
      → IsConserved s
      → IsConserved (handle_packet s packet now)
  unfolding handle_packet one_received received_dropped
  handle_packet-IsConserved s none now h = h
  handle_packet-IsConserved s (some packet) now h =
      elim (Bool-cases (ltb (length s.packet_queue) packet_queue_maxsize)) [
        | inl e ↦ rw e (record {
          counts = one_received h.counts;
          counted = collect-received s.processor now h.counts h.counted;
          conserved = omega (arith, h.conserved, length-append s.packet_queue (packet ∷ []));
          bounded = grind (arith, tests, e, length-append s.packet_queue (packet ∷ []));
        })
        | inr e ↦ rw e (record {
          counts = received_dropped h.counts;
          counted = collect-dropped s.processor now h.counts h.counted;
          conserved = omega (arith, h.conserved);
          bounded = h.bounded;
        })
      ]

module _ {F S : Type 0} ⦃f : Floats F⦄ (engine : Engine F S) where
  consume_packet-IsConserved :
      (s : SnifferService F S) (moment : Moment)
      → IsConserved s
      → IsConserved (consume_packet engine s moment)
  unfolding consume_packet
  consume_packet-IsConserved s moment h = go s.packet_queue refl
    where
      go : (q : List PacketData) → s.packet_queue ≡ q → IsConserved (consume_packet engine s moment)
      go [] e = simp (consume_packet, e) h
      go (packet ∷ q) e =
          simp (consume_packet, e)
            (record {
              counts = record h.counts { processed = h.counts.processed + 1 };
              counted =
                  totals-process engine s.processor packet moment ∙ ap one_processed h.counted;
              conserved = omega (arith, h.conserved, ap length e);
              bounded = omega (arith, h.bounded, ap length e);
            })

  publish_engine_telemetry-IsConserved :
      (s : SnifferService F S) (now : Time)
      → IsConserved s
      → IsConserved (publish_engine_telemetry engine s now).0
  unfolding publish_engine_telemetry snapshot trim_all
  publish_engine_telemetry-IsConserved s now h =
      elim (Option-cases s.processor.reports.telemetry_collector) [
        | inl e ↦ absurd (never-none _ h.counts h.counted e)
        | inr (c, e) ↦
            simp (publish_engine_telemetry, e)
              (record {
                counts = h.counts;
                counted = subst (λ o. totals o ≡ some h.counts) e h.counted;
                conserved = h.conserved;
                bounded = h.bounded;
              })
      ]

  poll_backend_commands-IsConserved :
      (lower : String → String) (s : SnifferService F S) (commands : List BackendCommand)
      (now : Time)
      → IsConserved s
      → IsConserved (poll_backend_commands engine lower s commands now)
  unfolding poll_backend_commands apply_polled_command process_command
  poll_backend_commands-IsConserved lower s [] now h = h
  poll_backend_commands-IsConserved lower s (command ∷ commands) now h =
      poll_backend_commands-IsConserved lower (apply_polled_command engine lower s command now)
        commands now
        (record {
          counts = h.counts;
          counted = h.counted;
          conserved = h.conserved;
          bounded = h.bounded;
        })

  -- The states of a service that starts with this one, whatever the order in which its threads take
  -- their turns.
  pub data Reachable (start : SnifferService F S) : SnifferService F S → Type 0 where
    started : Reachable start start
    captured :
        {s : SnifferService F S}
        → Reachable start s
        → (packet : Option PacketData) (now : Time) → Reachable start (handle_packet s packet now)
    consumed :
        {s : SnifferService F S}
        → Reachable start s
        → (moment : Moment) → Reachable start (consume_packet engine s moment)
    told :
        {s : SnifferService F S}
        → Reachable start s
        → (now : Time) → Reachable start (publish_engine_telemetry engine s now).0
    commanded :
        {s : SnifferService F S}
        → Reachable start s
        → (lower : String → String) (commands : List BackendCommand) (now : Time)
        → Reachable start (poll_backend_commands engine lower s commands now)

  -- Whatever the order in which the capture, the consumer, the telemetry and the command poll take
  -- their turns, every packet that was counted as received is counted as processed or as dropped,
  -- or waits in the queue, and the queue holds at most 10000 packets.
  pub packets-IsConserved :
      (start s : SnifferService F S) → IsConserved start → Reachable start s → IsConserved s
  packets-IsConserved start _ h Reachable.started = h
  packets-IsConserved start _ h (Reachable.captured {s} r packet now) =
      handle_packet-IsConserved s packet now (packets-IsConserved start s h r)
  packets-IsConserved start _ h (Reachable.consumed {s} r moment) =
      consume_packet-IsConserved s moment (packets-IsConserved start s h r)
  packets-IsConserved start _ h (Reachable.told {s} r now) =
      publish_engine_telemetry-IsConserved s now (packets-IsConserved start s h r)
  packets-IsConserved start _ h (Reachable.commanded {s} r lower commands now) =
      poll_backend_commands-IsConserved lower s commands now (packets-IsConserved start s h r)
