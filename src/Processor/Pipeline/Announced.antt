-- ===== src/Processor/Pipeline/Announced.antt =====
-- The blocks that `process` announces.
use smart_ids.Base.{
  ◌≡◌, Bool, true, false, List, [], ◌∷◌, All, if◌then◌else◌, Option-cases, inl, inr, string_eq,
}
use smart_ids.Dict.{keys, IsDistinct}
use smart_ids.Packet.{PacketData}
use smart_ids.Traffic.Stats.{Floats}
use smart_ids.Traffic.Session.{SessionKey, TrafficSession, from_packet}
use smart_ids.Traffic.Builder.{Finalized, process_packet}
use smart_ids.Heuristic.{HeuristicDecision}
use smart_ids.Heuristic.Evaluate.{evaluate_packet}
use smart_ids.Response.Policy.{ResponsePolicy, record_bruteforce_attempt}
use smart_ids.Response.Blocker.{is_currently_blocked}
use smart_ids.Response.Blocker.Running.{Keeps, is_currently_blocked-runs}
use smart_ids.Capture.Extractor.{extract}
use smart_ids.Processor.{BlockEvent}
use smart_ids.Processor.Outbox.{publish_all}
use smart_ids.Processor.Respond.{Responder}
use smart_ids.Processor.Respond.Handlers.{watch_source, respond_to_heuristic}
use smart_ids.Processor.Respond.Evidence.{
  blocks, Runs, Step, Step-trans, Step-refl, Step-if, watch_source-Step, respond_to_heuristic-Step,
  respond_to_brute_force-Step, respond_to_prediction-Step,
}
use smart_ids.Processor.Pipeline.Reporting.{Engine, Moment}
use smart_ids.Traffic.Builder.Turn.{is_due, session_of, ended_of}
use smart_ids.Processor.Pipeline.{
  PacketProcessor, respond_to_finalized, respond_to_all, inspect, predict_active, to_list, process,
  finish_all,
}

module _ {F S : Type 0} ⦃f : Floats F⦄ (engine : Engine F S) (moment : Moment) where
  abbrev Distinct : Responder F S → Type 0
  Distinct r = IsDistinct (keys (blocks r).blocked_until)

  respond_to_finalized-Step :
      (policy : ResponsePolicy) (r : Responder F S) (x : Finalized F)
      → Distinct r
      → Step moment.now r (respond_to_finalized engine policy r x moment)
  unfolding respond_to_finalized
  respond_to_finalized-Step policy r x d =
      elim (Option-cases
        (engine.completed_flow_predictor (extract engine.statistics engine.is_finite x.session))) [
          | inl e ↦ rw (respond_to_finalized, e) (Step-refl moment.now r d)
          | inr (prediction, e) ↦
              rw (respond_to_finalized, e)
                (respond_to_prediction-Step engine.means moment.now policy true r x.session_key
                  x.session prediction d)
        ]

  respond_to_all-Step :
      (policy : ResponsePolicy) (r : Responder F S) (xs : List (Finalized F))
      → Distinct r
      → Step moment.now r (respond_to_all engine policy r xs moment)
  unfolding respond_to_all
  respond_to_all-Step policy r [] d = Step-refl moment.now r d
  respond_to_all-Step policy r (x ∷ xs) d =
      let s = respond_to_finalized-Step policy r x d in
      Step-trans moment.now r _ _ s (
        respond_to_all-Step policy (respond_to_finalized engine policy r x moment) xs
          s.keeps.distinct)

  predict_active-Step :
      (p : PacketProcessor F S) (key : SessionKey) (session : TrafficSession F)
      (decision : HeuristicDecision) (due : Bool)
      → Distinct p.responder
      → Step moment.now p.responder
          (if due then predict_active engine p key session decision moment else p).responder
  unfolding predict_active
  predict_active-Step p key session decision false d = Step-refl moment.now p.responder d
  predict_active-Step p key session decision true d =
      elim (Option-cases
        (engine.live_predictor (extract engine.statistics engine.is_finite session))) [
          | inl e ↦ rw e (Step-refl moment.now p.responder d)
          | inr (prediction, e) ↦ rw e (
              respond_to_prediction-Step engine.means moment.now p.response_policy false p.responder
                key session prediction d)
        ]

  inspect-Step :
      (p : PacketProcessor F S) (packet : PacketData)
      → Distinct p.responder
      → Step moment.now p.responder (inspect engine p packet moment).0.responder
  unfolding inspect
  inspect-Step p packet d =
      let now = moment.now in
      let r1 = watch_source engine.means p.responder packet now in
      let decision = (evaluate_packet engine.order p.heuristic_detector packet).1 in
      let (policy, suspected) =
        record_bruteforce_attempt p.response_policy packet.src_ip packet.dst_ip packet.dst_port
          packet.timestamp in
      let s1 = watch_source-Step engine.means now p.responder packet d in
      let r2 =
        if decision.suspicious
        then respond_to_heuristic engine.means policy r1 packet decision now
        else r1 in
      let s2 : Step now r1 r2 = Step-if now decision.suspicious r1 _ s1.keeps.distinct (λ h.
        respond_to_heuristic-Step engine.means now policy r1 packet decision s1.keeps.distinct) in
      Step-trans now p.responder r1 _ s1 (
        Step-trans now r1 r2 _ s2 (
          Step-if now suspected r2 _ s2.keeps.distinct
            (λ h. respond_to_brute_force-Step engine.means now policy r2 packet s2.keeps.distinct)))

  process-Step :
      (p : PacketProcessor F S) (packet : PacketData)
      → Distinct p.responder
      → Step moment.now p.responder (process engine p packet moment).responder
  unfolding process
  process-Step p packet d =
      let now = moment.now in
      let (p1, decision) = inspect engine p packet moment in
      let b = p1.session_builder in
      let s1 = inspect-Step p packet d in
      let p2 =
        finish_all engine p1 ((process_packet b packet).0.pending_finalizations) decision moment in
      let s2 =
        respond_to_all-Step p1.response_policy p1.responder
          ((process_packet b packet).0.pending_finalizations) s1.keeps.distinct in
      let p3 =
        if is_due b packet
        then predict_active engine p2 (from_packet packet) (session_of b packet) decision moment
        else p2 in
      let s3 : Step now p2.responder p3.responder =
        predict_active-Step p2 (from_packet packet) (session_of b packet) decision (is_due b packet)
          s2.keeps.distinct in
      Step-trans now p.responder p1.responder _ s1 (
        Step-trans now p1.responder p2.responder _ s2 (
          Step-trans now p2.responder p3.responder _ s3 (
            respond_to_all-Step p3.response_policy p3.responder (to_list (ended_of b packet))
              s3.keeps.distinct)))

  All-blocked :
      (r : Responder F S) (events : List BlockEvent)
      → All (Runs moment.now r) events
      → All
          (λ (e : BlockEvent).
            is_currently_blocked engine.means.adapter (blocks r) e.source_ip moment.now ≡ true)
          events
  All-blocked r [] h = tt
  All-blocked r (x ∷ xs) (h, t) = (
    is_currently_blocked-runs engine.means.adapter (blocks r) x.source_ip moment.now h,
    All-blocked r xs t,
  )

  -- Every block that `process` announces while it takes a packet, whatever the evidence was and
  -- whichever of the handlers made it, is in force when it returns: the address of each event
  -- counts as blocked at that time. What is on the list of blocks of the blocker stays there once
  -- for each address, and a block of any address that was running at the time of the packet still
  -- runs then: it is not lifted, though a refresh may have moved its end, to an earlier time also.
  pub process-announced :
      (p : PacketProcessor F S) (packet : PacketData)
      → IsDistinct (keys (blocks p.responder).blocked_until)
      → (let after = (process engine p packet moment).responder in
          (events : List BlockEvent) × (after.commands.block_event_publisher
            ≡ publish_all p.responder.commands.block_event_publisher events)
          × All
              (λ (e : BlockEvent).
                is_currently_blocked engine.means.adapter (blocks after) e.source_ip moment.now
                ≡ true)
              events
          × Keeps moment.now (blocks p.responder) (blocks after))
  process-announced p packet d =
      let s = process-Step p packet d in
      (
        s.events,
        s.published,
        All-blocked (process engine p packet moment).responder s.events s.running,
        s.keeps,
      )
