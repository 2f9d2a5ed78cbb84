-- ===== src/Processor/Respond/Evidence.antt =====
-- Every block that a response of the processor announces is one that runs.
use smart_ids.Base.{
  string_eq, ◌==◌, ◌≡◌, refl, ap, sym, ◌∙◌, subst, Bool, true, false, List, [], ◌∷◌, ◌++◌, ℕ,
  String, All, if◌then◌else◌,
}
use smart_ids.Dict.{get, keys, IsDistinct}
use smart_ids.Packet.{PacketData, Time}
use smart_ids.Traffic.Stats.{Floats}
use smart_ids.Traffic.Session.{SessionKey, TrafficSession}
use smart_ids.Heuristic.{HeuristicDecision}
use smart_ids.Response.Policy.{ResponsePolicy, classify_heuristic_action}
use smart_ids.Response.Blocker.{AutoBlocker, expire_blocks, is_currently_blocked, is_watchlisted}
use smart_ids.Response.Blocker.Running.{
  Keeps, runs_at, Keeps-trans, Keeps-note, Keeps-same, expire_blocks-Keeps, temp_block-Keeps,
  temp_block-runs,
}
use smart_ids.Forwarding.Contracts.{Prediction}
use smart_ids.Processor.{BlockEvent}
use smart_ids.Processor.Outbox.{publish_all, publish_all-append}
use smart_ids.Processor.Alerts.{AlertState}
use smart_ids.Processor.Respond.{
  Responder, with_blocker, note_activity, publish_block_event, packet_block_event,
  session_block_event, should_alert,
}
use smart_ids.Processor.Respond.Handlers.{
  Means, block, watch_source, publish_if, respond_to_heuristic, respond_to_brute_force,
  respond_to_prediction,
}

All-append :
    (P : BlockEvent → Type 0) (xs ys : List BlockEvent) → All P xs → All P ys → All P (xs ++ ys)
All-append P [] ys h k = k
All-append P (x ∷ xs) ys (h, t) k = (h, All-append P xs ys t k)

module _ {F S : Type 0} where
  abbrev pub blocks : Responder F S → AutoBlocker S
  blocks r = r.commands.auto_blocker

  -- The event is of an address with a block that runs.
  abbrev pub Runs : Time → Responder F S → BlockEvent → Type 0
  Runs now r event = runs_at now (get (blocks r).blocked_until event.source_ip) ≡ true

  -- From `r` to `r'` no running block is lost, and what is announced runs.
  pub record Step (now : Time) (r r' : Responder F S) : Type 0 where
    pub keeps : Keeps now (blocks r) (blocks r')
    pub events : List BlockEvent
    pub published :
        r'.commands.block_event_publisher ≡ publish_all r.commands.block_event_publisher events
    pub running : All (Runs now r') events

  Runs-kept :
      (now : Time) (r r' : Responder F S) (events : List BlockEvent)
      → Keeps now (blocks r) (blocks r')
      → All (Runs now r) events
      → All (Runs now r') events
  Runs-kept now r r' [] k h = tt
  Runs-kept now r r' (x ∷ xs) k (h, t) = (k.running x.source_ip h, Runs-kept now r r' xs k t)

  pub Step-trans :
      (now : Time) (r1 r2 r3 : Responder F S) → Step now r1 r2 → Step now r2 r3 → Step now r1 r3
  Step-trans now r1 r2 r3 h k = record {
    keeps = Keeps-trans now (blocks r1) (blocks r2) (blocks r3) h.keeps k.keeps;
    events = h.events ++ k.events;
    published =
        k.published
        ∙ ap (λ c. publish_all c k.events) h.published
        ∙ sym (publish_all-append r1.commands.block_event_publisher h.events k.events);
    running =
        All-append (Runs now r3) h.events k.events (Runs-kept now r2 r3 h.events k.keeps h.running)
          k.running;
  }

  -- A step that announces nothing.
  pub Step-quiet :
      (now : Time) (r r' : Responder F S)
      → Keeps now (blocks r) (blocks r')
      → r'.commands.block_event_publisher ≡ r.commands.block_event_publisher
      → Step now r r'
  unfolding publish_all
  Step-quiet now r r' k e = record { keeps = k; events = []; published = e; running = tt }

  pub Step-refl :
      (now : Time) (r : Responder F S) → IsDistinct (keys (blocks r).blocked_until) → Step now r r
  Step-refl now r d = Step-quiet now r r (Keeps-same now (blocks r) (blocks r) d refl) refl

  -- A step that announces one block which runs.
  Step-announce :
      (now : Time) (r : Responder F S) (event : BlockEvent)
      → IsDistinct (keys (blocks r).blocked_until)
      → Runs now r event
      → Step now r (publish_block_event r event)
  unfolding publish_all publish_block_event
  Step-announce now r event d h = record {
    keeps = Keeps-same now (blocks r) (blocks r) d refl;
    events = event ∷ [];
    published = refl;
    running = (h, tt);
  }

  pub Step-note :
      (now : Time) (r : Responder F S) (ip attack_type action : String) (timestamp : Time)
      → IsDistinct (keys (blocks r).blocked_until)
      → Step now r (note_activity r ip attack_type action timestamp)
  unfolding note_activity
  Step-note now r ip attack_type action timestamp d =
      Step-quiet now r _ (Keeps-note now (blocks r) ip attack_type action timestamp d) refl

  -- If the test holds, the step is made.
  pub Step-if :
      (now : Time) (test : Bool) (r r' : Responder F S)
      → IsDistinct (keys (blocks r).blocked_until)
      → (test ≡ true → Step now r r')
      → Step now r (if test then r' else r)
  Step-if now true r r' d h = h refl
  Step-if now false r r' d h = Step-refl now r d

module _ {F S : Type 0} (means : Means F S) (now : Time) where
  block-runs :
      (r : Responder F S) (ip : String) (duration_seconds : ℕ)
      → (block means r ip duration_seconds now).1.0 ≡ true
      → runs_at now (get (blocks (block means r ip duration_seconds now).0).blocked_until ip) ≡ true
  unfolding block
  block-runs r ip duration_seconds ok =
      temp_block-runs means.adapter means.parse_ip (blocks r) ip duration_seconds now ok

  -- Blocking an address, then alerts, and the event if the block was made.
  block_and_announce :
      (r : Responder F S) (ip : String) (duration_seconds : ℕ) (alerts : AlertState F)
      (event : BlockEvent)
      → IsDistinct (keys (blocks r).blocked_until)
      → event.source_ip ≡ ip
      → (let (r1, reply) = block means r ip duration_seconds now in
          let r2 : Responder F S = record r1 { alerts = alerts } in
          Step now r (if reply.0 then publish_block_event r2 event else r2))
  unfolding block
  block_and_announce r ip duration_seconds alerts event d same =
      let (r1, reply) = block means r ip duration_seconds now in
      let r2 : Responder F S = record r1 { alerts = alerts } in
      let k = temp_block-Keeps means.adapter means.parse_ip (blocks r) ip duration_seconds now d in
      let s2 : Step now r r2 = Step-quiet now r r2 k refl in
      Step-trans now r r2 _ s2 (
        Step-if now (reply.0) r2 (publish_block_event r2 event) k.distinct (λ ok.
          Step-announce now r2 event k.distinct (
            subst (λ x. runs_at now (get (blocks r2).blocked_until x) ≡ true) (sym same)
              (block-runs r ip duration_seconds ok))))

  pub watch_source-Step :
      (r : Responder F S) (packet : PacketData)
      → IsDistinct (keys (blocks r).blocked_until)
      → Step now r (watch_source means r packet now)
  unfolding watch_source
  watch_source-Step r packet d =
      let r1 = with_blocker r (expire_blocks means.adapter now (blocks r)) in
      let s1 : Step now r r1 =
        Step-quiet now r r1 (expire_blocks-Keeps means.adapter now (blocks r) d) refl in
      let blocked = is_currently_blocked means.adapter (blocks r1) packet.src_ip now in
      let noted = note_activity r1 packet.src_ip "blocked_ip_activity" "blocked" packet.timestamp in
      let r2 = if blocked then noted else r1 in
      let s2 =
        Step-if now blocked r1 noted s1.keeps.distinct
          (λ h. Step-note now r1 _ _ _ _ s1.keeps.distinct) in
      Step-trans now r r1 _ s1 (
        Step-trans now r1 r2 _ s2 (
          Step-if now (is_watchlisted (blocks r2) packet.src_ip) r2 _ s2.keeps.distinct
            (λ h. Step-note now r2 _ _ _ _ s2.keeps.distinct)))

  module _ ⦃f : Floats F⦄ (policy : ResponsePolicy) where
    pub respond_to_heuristic-Step :
        (r : Responder F S) (packet : PacketData) (decision : HeuristicDecision)
        → IsDistinct (keys (blocks r).blocked_until)
        → Step now r (respond_to_heuristic means policy r packet decision now)
    unfolding respond_to_heuristic publish_if packet_block_event
    respond_to_heuristic-Step r packet decision d =
        let r1 = note_activity r packet.src_ip decision.reason "allowed" packet.timestamp in
        let s1 = Step-note now r packet.src_ip decision.reason "allowed" packet.timestamp d in
        Step-trans now r r1 _ s1 (
          Step-if now (classify_heuristic_action policy decision.score == "high_temp_block") r1 _
            s1.keeps.distinct
            (λ h.
              block_and_announce r1 packet.src_ip policy.high_heuristic_block_seconds _ _
                s1.keeps.distinct refl))

    pub respond_to_brute_force-Step :
        (r : Responder F S) (packet : PacketData)
        → IsDistinct (keys (blocks r).blocked_until)
        → Step now r (respond_to_brute_force means policy r packet now)
    unfolding respond_to_brute_force publish_if packet_block_event
    respond_to_brute_force-Step r packet d =
        let s1 = block_and_announce r packet.src_ip policy.bruteforce_block_seconds _ _ d refl in
        Step-trans now r _ _ s1
          (Step-note now _ packet.src_ip "Brute Force" _ packet.timestamp s1.keeps.distinct)

    pub respond_to_prediction-Step :
        (is_final : Bool) (r : Responder F S) (key : SessionKey) (session : TrafficSession F)
        (prediction : Prediction F)
        → IsDistinct (keys (blocks r).blocked_until)
        → Step now r (respond_to_prediction means policy is_final r key session prediction now)
    unfolding respond_to_prediction session_block_event
    respond_to_prediction-Step is_final r key session prediction d =
        Step-if now (should_alert means.scores prediction) r _ d (λ h.
          let s1 =
            block_and_announce r session.src_ip policy.ml_confirmed_block_seconds _ _ d refl in
          Step-trans now r _ _ s1
            (Step-note now _ session.src_ip prediction.label _ session.last_seen s1.keeps.distinct))
