-- ===== src/Processor/Pipeline/Quiet.antt =====
-- What `process` does to traffic against which there is no evidence.
use smart_ids.Base.{
  ◌≡◌, refl, ◌∙◌, Bool, true, false, Option, some, List, [], ◌∷◌, String, All, if◌then◌else◌,
  Option-cases, inl, inr,
}
use smart_ids.Dict.{Dict}
use smart_ids.Packet.{PacketData, Time}
use smart_ids.Traffic.Stats.{Floats}
use smart_ids.Traffic.Session.{SessionKey, TrafficSession, from_packet}
use smart_ids.Traffic.Builder.{Finalized, process_packet}
use smart_ids.Traffic.Builder.Turn.{is_due, session_of, ended_of}
use smart_ids.Heuristic.{HeuristicDecision}
use smart_ids.Heuristic.Evaluate.{evaluate_packet}
use smart_ids.Response.Policy.{ResponsePolicy, record_bruteforce_attempt}
use smart_ids.Response.Blocker.{
  AutoBlocker, record_detection_activity, expire_blocks, is_currently_blocked, is_watchlisted,
}
use smart_ids.Capture.Extractor.{extract}
use smart_ids.Forwarding.Contracts.{Prediction}
use smart_ids.Processor.Respond.{Responder, with_blocker, note_activity, should_alert}
use smart_ids.Processor.Respond.Handlers.{Means, watch_source, respond_to_prediction}
use smart_ids.Processor.Respond.Evidence.{blocks}
use smart_ids.Processor.Pipeline.Reporting.{Engine, Moment}
use smart_ids.Processor.Pipeline.{
  PacketProcessor, respond_to_finalized, respond_to_all, inspect, predict_active, to_list, process,
  finish_all,
}

-- `r'` has the alerts, the announced blocks and the processed commands of `r`, and a blocker that
-- differs from `b` in the activities of addresses alone.
pub record Untouched {F S : Type 0} (r r' : Responder F S) (b : AutoBlocker S) : Type 0 where
  pub alerts : r'.alerts ≡ r.alerts
  pub announced : r'.commands.block_event_publisher ≡ r.commands.block_event_publisher
  pub commands : r'.commands.processed_command_store ≡ r.commands.processed_command_store
  pub firewall : (blocks r').firewall ≡ b.firewall
  pub blocked_until : (blocks r').blocked_until ≡ b.blocked_until
  pub last_block_time : (blocks r').last_block_time ≡ b.last_block_time
  pub block_counts : (blocks r').block_counts ≡ b.block_counts
  pub watchlisted_ips : (blocks r').watchlisted_ips ≡ b.watchlisted_ips
  pub record_store : (blocks r').record_store ≡ b.record_store

module _ {F S : Type 0} (means : Means F S) where
  note-Untouched :
      (test : Bool) (r r' : Responder F S) (b : AutoBlocker S) (ip attack_type action : String)
      (timestamp : Time)
      → Untouched r r' b
      → Untouched r (if test then note_activity r' ip attack_type action timestamp else r') b
  unfolding note_activity record_detection_activity
  note-Untouched false r r' b ip attack_type action timestamp u = u
  note-Untouched true r r' b ip attack_type action timestamp u = record {
    alerts = u.alerts;
    announced = u.announced;
    commands = u.commands;
    firewall = u.firewall;
    blocked_until = u.blocked_until;
    last_block_time = u.last_block_time;
    block_counts = u.block_counts;
    watchlisted_ips = u.watchlisted_ips;
    record_store = u.record_store;
  }

  watch_source-Untouched :
      (r : Responder F S) (packet : PacketData) (now : Time)
      → Untouched r (watch_source means r packet now) (expire_blocks means.adapter now (blocks r))
  unfolding watch_source
  watch_source-Untouched r packet now =
      let b = expire_blocks means.adapter now (blocks r) in
      let r1 = with_blocker r b in
      let blocked = is_currently_blocked means.adapter b packet.src_ip now in
      let r2 =
        if blocked
        then note_activity r1 packet.src_ip "blocked_ip_activity" "blocked" packet.timestamp
        else r1 in
      let u : Untouched r r1 b = record {
        alerts = refl;
        announced = refl;
        commands = refl;
        firewall = refl;
        blocked_until = refl;
        last_block_time = refl;
        block_counts = refl;
        watchlisted_ips = refl;
        record_store = refl;
      } in
      note-Untouched (is_watchlisted (blocks r2) packet.src_ip) r r2 b _ _ _ _
        (note-Untouched blocked r r1 b _ _ _ _ u)

module _ {F S : Type 0} ⦃f : Floats F⦄ (engine : Engine F S) (moment : Moment) where
  -- The predictor raises no alert on this session.
  abbrev pub NoAlert : (Dict String F → Option (Prediction F)) → TrafficSession F → Type 0
  NoAlert predictor session =
      (prediction : Prediction F)
      → predictor (extract engine.statistics engine.is_finite session) ≡ some prediction
      → should_alert engine.means.scores prediction ≡ false

  -- The predictor for sessions that are over raises no alert on any of these.
  abbrev pub NoAlerts : List (Finalized F) → Type 0
  NoAlerts sessions =
      All (λ (x : Finalized F). NoAlert engine.completed_flow_predictor x.session) sessions

  respond_to_prediction-none :
      (policy : ResponsePolicy) (is_final : Bool) (r : Responder F S) (key : SessionKey)
      (session : TrafficSession F) (prediction : Prediction F)
      → should_alert engine.means.scores prediction ≡ false
      → respond_to_prediction engine.means policy is_final r key session prediction moment.now ≡ r
  unfolding respond_to_prediction
  respond_to_prediction-none policy is_final r key session prediction h =
      rw (respond_to_prediction, h) refl

  respond_to_finalized-none :
      (policy : ResponsePolicy) (r : Responder F S) (x : Finalized F)
      → NoAlert engine.completed_flow_predictor x.session
      → respond_to_finalized engine policy r x moment ≡ r
  unfolding respond_to_finalized
  respond_to_finalized-none policy r x quiet =
      let features = extract engine.statistics engine.is_finite x.session in
      elim (Option-cases (engine.completed_flow_predictor features)) [
        | inl e ↦ rw (respond_to_finalized, e) refl
        | inr (prediction, e) ↦
            rw (respond_to_finalized, e)
              (respond_to_prediction-none policy true r x.session_key x.session prediction
                (quiet prediction e))
      ]

  respond_to_all-none :
      (policy : ResponsePolicy) (r : Responder F S) (xs : List (Finalized F))
      → NoAlerts xs
      → respond_to_all engine policy r xs moment ≡ r
  unfolding respond_to_all
  respond_to_all-none policy r [] quiet = refl
  respond_to_all-none policy r (x ∷ xs) (quiet, others) =
      rw (respond_to_finalized-none policy r x quiet) (respond_to_all-none policy r xs others)

  predict_active-none :
      (p : PacketProcessor F S) (key : SessionKey) (session : TrafficSession F)
      (decision : HeuristicDecision) (due : Bool)
      → (due ≡ true → NoAlert engine.live_predictor session)
      → (if due then predict_active engine p key session decision moment else p).responder
        ≡ p.responder
  unfolding predict_active
  predict_active-none p key session decision false quiet = refl
  predict_active-none p key session decision true quiet =
      let features = extract engine.statistics engine.is_finite session in
      elim (Option-cases (engine.live_predictor features)) [
        | inl e ↦ rw (predict_active, e) refl
        | inr (prediction, e) ↦
            rw (predict_active, e)
              (respond_to_prediction-none p.response_policy false p.responder key session prediction
                (quiet refl prediction e))
      ]

  -- The evidence of the two detectors, in the state in which the packet finds them.
  abbrev pub is_suspicious : PacketProcessor F S → PacketData → Bool
  is_suspicious p packet = (evaluate_packet engine.order p.heuristic_detector packet).1.suspicious

  abbrev pub is_brute_force : PacketProcessor F S → PacketData → Bool
  is_brute_force p packet =
      (record_bruteforce_attempt p.response_policy packet.src_ip packet.dst_ip packet.dst_port
        packet.timestamp).1

  inspect-none :
      (p : PacketProcessor F S) (packet : PacketData)
      → is_suspicious p packet ≡ false
      → is_brute_force p packet ≡ false
      → (inspect engine p packet moment).0.responder
        ≡ watch_source engine.means p.responder packet moment.now
  unfolding inspect
  inspect-none p packet h k = rw (inspect, h, k) refl

  process-none :
      (p : PacketProcessor F S) (packet : PacketData)
      → is_suspicious p packet ≡ false
      → is_brute_force p packet ≡ false
      → (is_due p.session_builder packet ≡ true
          → NoAlert engine.live_predictor (session_of p.session_builder packet))
      → NoAlerts ((process_packet p.session_builder packet).0.pending_finalizations)
      → NoAlerts (to_list (ended_of p.session_builder packet))
      → (process engine p packet moment).responder
        ≡ watch_source engine.means p.responder packet moment.now
  unfolding process
  process-none p packet h k live expired ended =
      let (p1, decision) = inspect engine p packet moment in
      let b = p1.session_builder in
      let p2 =
        finish_all engine p1 ((process_packet b packet).0.pending_finalizations) decision moment in
      let p3 =
        if is_due b packet
        then predict_active engine p2 (from_packet packet) (session_of b packet) decision moment
        else p2 in
      respond_to_all-none p3.response_policy p3.responder (to_list (ended_of b packet)) ended
      ∙ predict_active-none p2 (from_packet packet) (session_of b packet) decision (is_due b packet)
          live
      ∙ respond_to_all-none p1.response_policy p1.responder
          ((process_packet b packet).0.pending_finalizations) expired
      ∙ inspect-none p packet h k

  -- A packet against which there is no evidence blocks nobody and raises no alert: the alerts and the
  -- announced blocks stay as they were, and the packet filter and the tables of the blocker are
  -- those that are left when the blocks that have ended are lifted. No evidence means that the packet
  -- is not suspicious, that no brute force is suspected, and that no prediction that is made while
  -- the packet is taken raises an alert: that for its own session, if one is due, and those for the
  -- sessions that it shows to be over and for its own session, if it ends.
  pub process-quiet :
      (p : PacketProcessor F S) (packet : PacketData)
      → is_suspicious p packet ≡ false
      → is_brute_force p packet ≡ false
      → (is_due p.session_builder packet ≡ true
          → NoAlert engine.live_predictor (session_of p.session_builder packet))
      → NoAlerts ((process_packet p.session_builder packet).0.pending_finalizations)
      → NoAlerts (to_list (ended_of p.session_builder packet))
      → Untouched p.responder
          (process engine p packet moment).responder
          (expire_blocks engine.means.adapter moment.now (blocks p.responder))
  process-quiet p packet h k live expired ended =
      rw (process-none p packet h k live expired ended)
        (watch_source-Untouched engine.means p.responder packet moment.now)
