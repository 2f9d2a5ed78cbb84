-- ===== src/Tests/Pipeline.antt =====
-- The packet processor, with whole numbers in place of floats and a model that sees attacks in
-- sessions of more than one packet.
use smart_ids.Base.{
  string_eq, ◌==◌, ℕ, ◌*◌, ◌≡◌, refl, subst, sym, true, false, none, some, List, [], String, All,
  leb, arith, tests,
}
use smart_ids.Dict.{keys, IsDistinct, get, get_or, put, contains, add}
use smart_ids.Packet.{PacketData, second}
use smart_ids.Traffic.Builder
use smart_ids.Traffic.Builder.Turn.{IsSettled, is_due, ended_of}
use smart_ids.Heuristic
use smart_ids.Heuristic.{append_time, append_dst_port, append_syn_only, syn_only}
use smart_ids.Window.{slide_at}
use smart_ids.Heuristic.Evaluate.{
  evaluate_packet, observe, findings, weigh, decide_on, track, rule, unique_ports,
  probes_sensitive_port, prune_due,
}
use smart_ids.Response.Policy
use smart_ids.Response.Policy.{record_bruteforce_attempt}
use smart_ids.Response.Blocker.{init, is_currently_blocked, expire_blocks}
use smart_ids.Response.Blocker.Running.{Keeps}
use smart_ids.Response.Commands.{unreadable, open_store}
use smart_ids.Response.Firewall.Linux.{linux_adapter}
use smart_ids.Capture.Features.{empty_store}
use smart_ids.Forwarding.Contracts.{Scores, Texts, Prediction, severity_from_prediction, risk_score}
use smart_ids.Forwarding.Contracts.Ranges.{
  severity-should_alert, InUnit, IsOrdered, risk_score-InUnit,
}
use smart_ids.Telemetry.{new_collector}
use smart_ids.Processor.{BlockEvent}
use smart_ids.Processor.Outbox.{publish_all}
use smart_ids.Processor.Respond.{should_alert}
use smart_ids.Processor.Respond.Evidence.{blocks}
use smart_ids.Processor.Pipeline.{PacketProcessor, process, to_list}
use smart_ids.Processor.Pipeline.Reporting.{Engine, Moment}
use smart_ids.Processor.Shadow.{shadow_severity}
use smart_ids.Processor.Pipeline.Updates.{updates_of, process-updates}
use smart_ids.Processor.Pipeline.Announced.{process-announced}
use smart_ids.Processor.Pipeline.Quiet.{
  Untouched, NoAlerts, is_suspicious, is_brute_force, process-quiet,
}
use smart_ids.Tests.Data.{insertion_order, syn_packet, whole_numbers, statistics, rounding}
use smart_ids.Tests.Response.{run, parse_ip, blocker}

abbrev scores : Scores ℕ
scores = record {
  at_least = λ a b. leb b a;
  round_4 = λ a. a;
  ten_thousandths = λ a. a * 10_000;
  seconds = λ t. t;
}

abbrev texts : Texts
texts = record { show = λ n. "n"; digest = λ s. s }

abbrev normal : Prediction ℕ
normal = record { label = "Normal Traffic"; confidence = 1; encoded = 0; model_key = none }

abbrev pub engine : Engine ℕ (List String)
engine = record {
  means = record {
    adapter = linux_adapter run;
    parse_ip = parse_ip;
    scores = scores;
    texts = texts;
  };
  order = insertion_order;
  statistics = statistics;
  is_finite = λ x. true;
  rounding = rounding;
  live_predictor = λ features. some normal;
  completed_flow_predictor = λ features. some normal;
}

-- A processor that suspects brute force at this number of attempts.
abbrev pub processor : ℕ → PacketProcessor ℕ (List String)
processor threshold = record {
  heuristic_detector = Heuristic.init 2000 30;
  response_policy = Policy.init (60 * second) threshold;
  session_builder = Builder.init;
  feature_store = empty_store 5000;
  heuristic_events = empty_store 1000;
  ml_events = empty_store 1000;
  responder = record {
    commands = record {
      auto_blocker = blocker;
      processed_command_store = open_store 3 unreadable;
      block_event_publisher = some [];
    };
    alerts = record {
      session_alert_state = [];
      alert_store = empty_store 1000;
      alert_publisher = some [];
    };
  };
  reports = record {
    session_update_publisher = some [];
    event_publisher = none;
    telemetry_collector = some (new_collector rounding (60 * second) 8);
  };
}

-- A packet to a port that is neither sensitive nor a service that is attacked by brute force.
abbrev plain_packet : PacketData
plain_packet = record syn_packet { dst_port = some 8080 }

abbrev calm_processor : PacketProcessor ℕ (List String)
calm_processor = record (processor 8) {
  heuristic_detector = record (Heuristic.init 2000 30) { last_pruned_at = some (10 * second) };
}

abbrev pub moment : Moment
moment = record { now = 10 * second; latency = 5 }

settled : IsSettled (processor 1).session_builder
unfolding Builder.init
settled = record { distinct = tt; drained = refl }

process-updates_example :
    ((process engine (processor 1) syn_packet moment).reports.session_update_publisher
      ≡ publish_all (processor 1).reports.session_update_publisher (
          updates_of engine
            (processor 1).session_builder
            syn_packet
            (evaluate_packet insertion_order (processor 1).heuristic_detector syn_packet).1))
    × IsSettled (process engine (processor 1) syn_packet moment).session_builder
process-updates_example = process-updates engine (processor 1) syn_packet moment settled

no_blocks : IsDistinct (keys (blocks (processor 1).responder).blocked_until)
unfolding init
no_blocks = tt

process-announced_example :
    let after = (process engine (processor 1) syn_packet moment).responder in
    (events : List BlockEvent) × (after.commands.block_event_publisher
      ≡ publish_all (processor 1).responder.commands.block_event_publisher events)
    × All
        (λ (e : BlockEvent).
          is_currently_blocked (linux_adapter run) (blocks after) e.source_ip (10 * second) ≡ true)
        events
    × Keeps (10 * second) (blocks (processor 1).responder) (blocks after)
process-announced_example = process-announced engine moment (processor 1) syn_packet no_blocks

-- Predictors that see an attack in every session.
abbrev attack : Prediction ℕ
attack = record { label = "DDoS"; confidence = 1; encoded = 3; model_key = none }

abbrev alarming : Engine ℕ (List String)
alarming = record engine {
  live_predictor = λ features. some attack;
  completed_flow_predictor = λ features. some attack;
}

-- The first packet of a session asks for no prediction, and ends no session.
not_due : is_due calm_processor.session_builder plain_packet ≡ false
unfolding Builder.init Builder.should_predict get Builder.drain_finalized_sessions
    Builder.process_packet put
not_due = refl

none_expired :
    (Builder.process_packet calm_processor.session_builder plain_packet).0.pending_finalizations
    ≡ []
unfolding Builder.init Builder.process_packet get put
none_expired = refl

none_ended : to_list (ended_of calm_processor.session_builder plain_packet) ≡ []
unfolding Builder.init Builder.finalize_session_if_needed get Builder.should_predict
    Builder.drain_finalized_sessions Builder.process_packet put
none_ended = refl

unsuspicious : is_suspicious alarming moment calm_processor plain_packet ≡ false
unfolding evaluate_packet observe findings weigh decide_on track rule unique_ports
    probes_sensitive_port prune_due append_time append_dst_port append_syn_only syn_only slide_at
    Heuristic.init get get_or put contains add
unsuspicious = refl

few_attempts : is_brute_force alarming moment calm_processor plain_packet ≡ false
unfolding record_bruteforce_attempt Policy.init contains
few_attempts = refl

process-quiet_example :
    Untouched calm_processor.responder
      (process alarming calm_processor plain_packet moment).responder
      (expire_blocks (linux_adapter run) (10 * second) (blocks calm_processor.responder))
process-quiet_example =
    process-quiet alarming moment calm_processor plain_packet unsuspicious few_attempts
      (λ due. absurd (cc (due, not_due))) (subst (NoAlerts alarming moment) (sym none_expired) tt)
      (subst (NoAlerts alarming moment) (sym none_ended) tt)

severity-should_alert_example :
    ((severity_from_prediction scores "DDoS" 1 == "high") ≡ should_alert scores attack)
    × ((severity_from_prediction scores "DDoS" 1 == "low") ≡ (attack.label == "Normal Traffic"))
    × (shadow_severity scores "DDoS" 1 ≡ severity_from_prediction scores "DDoS" 1)
severity-should_alert_example = severity-should_alert scores attack

ordered : IsOrdered scores
ordered = record {
  asymmetric = λ a b h. grind (arith, tests, h);
  irreflexive = λ a. grind (arith, tests);
  zero_one = refl;
  rounded = λ a h. h;
}

risk_score-InUnit_example : InUnit scores (risk_score scores (some "DDoS") 1 25)
risk_score-InUnit_example = risk_score-InUnit scores ordered (some "DDoS") 1 25 (refl, refl)
