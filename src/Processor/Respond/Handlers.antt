-- ===== src/Processor/Respond/Handlers.antt =====
-- packet_capture/processor/packet_processor.py: the handlers of evidence. `now` is what
-- `time.time()` returns in a call.
use smart_ids.Base.{string_eq, ◌==◌, Bool, true, Option, none, some, String, ℕ, if◌then◌else◌}
use smart_ids.Packet.{PacketData, Time}
use smart_ids.Traffic.Stats.{Floats}
use smart_ids.Traffic.Session.{SessionKey, TrafficSession}
use smart_ids.Response.Firewall.{FirewallAdapter}
use smart_ids.Response.Policy.{ResponsePolicy, classify_heuristic_action}
use smart_ids.Response.Blocker.{
  Reply, temp_block, expire_blocks, is_currently_blocked, is_watchlisted,
}
use smart_ids.Heuristic.{HeuristicDecision}
use smart_ids.Forwarding.Contracts.{Scores, Texts, Prediction, session_id, smaller}
use smart_ids.Processor.Alerts.{add_alert, Alert, emit_session_alert}
use smart_ids.Processor.Respond.{
  Responder, with_blocker, publish_block_event, note_activity, packet_block_event, packet_alert,
  session_block_event, session_alert, should_alert,
}

-- What the handlers use beside their state.
pub record Means (F S : Type 0) : Type 0 where
  pub adapter : FirewallAdapter S
  pub parse_ip : String → Option Bool
  pub scores : Scores F
  pub texts : Texts

abbrev pub action_of : Bool → String
action_of blocked = if blocked then "blocked" else "allowed"

module _ {F S : Type 0} (means : Means F S) where
  -- `self.auto_blocker.temp_block`
  unfoldable pub block : Responder F S → String → ℕ → Time → Responder F S × Reply
  unfolding temp_block
  block r ip_address duration_seconds now =
      let (b, reply) =
        temp_block means.adapter means.parse_ip r.commands.auto_blocker ip_address duration_seconds
          now in
      (with_blocker r b, reply)

  -- The start of `process`, up to the detector.
  unfoldable pub watch_source : Responder F S → PacketData → Time → Responder F S
  unfolding note_activity expire_blocks is_currently_blocked is_watchlisted
  watch_source r packet now =
      let ip = packet.src_ip in
      let r1 = with_blocker r (expire_blocks means.adapter now r.commands.auto_blocker) in
      let r2 =
        if is_currently_blocked means.adapter r1.commands.auto_blocker ip now
        then note_activity r1 ip "blocked_ip_activity" "blocked" packet.timestamp
        else r1 in
      if is_watchlisted r2.commands.auto_blocker ip
      then note_activity r2 ip "watchlisted_ip_activity" "watchlisted" packet.timestamp
      else r2

  unfoldable pub publish_if : Bool → Responder F S → String → String → PacketData → Responder F S
  unfolding publish_block_event packet_block_event
  publish_if blocked r prefix reason packet =
      if blocked
      then publish_block_event r (packet_block_event means.texts prefix reason packet)
      else r

  abbrev pub with_alert : Responder F S → Alert F → Responder F S
  with_alert r alert = record r { alerts = add_alert r.alerts alert }

  module _ ⦃f : Floats F⦄ where
    -- The part under `if heuristic_decision.suspicious`, after the event is stored.
    unfoldable pub respond_to_heuristic :
        ResponsePolicy → Responder F S → PacketData → HeuristicDecision → Time → Responder F S
    unfolding block note_activity publish_if packet_alert classify_heuristic_action add_alert
    respond_to_heuristic policy r packet decision now =
        let ip = packet.src_ip in
        let r1 = note_activity r ip decision.reason "allowed" packet.timestamp in
        if classify_heuristic_action policy decision.score == "high_temp_block"
        then (let (r2, reply) = block r1 ip policy.high_heuristic_block_seconds now in
            let confidence : F =
              smaller (f.div (f.of_nat 99) (f.of_nat 100))
                (f.div (f.of_nat decision.score) (f.of_nat 10)) in
            let alert =
              packet_alert "heuristic_high_confidence" "Heuristic Suspicious Activity" confidence
                reply policy.high_heuristic_block_seconds packet in
            publish_if (reply.0) (with_alert r2 alert) "heuristic-" "heuristic_high_confidence"
              packet)
        else r1

    -- The part under `if brute_force_suspected`.
    unfoldable pub respond_to_brute_force :
        ResponsePolicy → Responder F S → PacketData → Time → Responder F S
    unfolding block note_activity publish_if packet_alert add_alert
    respond_to_brute_force policy r packet now =
        let ip = packet.src_ip in
        let (r1, reply) = block r ip policy.bruteforce_block_seconds now in
        let confidence : F = f.div (f.of_nat 9) (f.of_nat 10) in
        let alert =
          packet_alert "heuristic_bruteforce_detected" "Brute Force" confidence reply
            policy.bruteforce_block_seconds packet in
        note_activity
          (publish_if (reply.0) (with_alert r1 alert) "bruteforce-" "bruteforce_detected" packet) ip
          "Brute Force" (action_of (reply.0)) packet.timestamp

    -- The part under `if self._should_alert(...)`, which stands in `process` and, for a session that
    -- is over, in `_process_finalized_session`.
    unfoldable pub respond_to_prediction :
        ResponsePolicy
        → Bool
        → Responder F S
        → SessionKey
        → TrafficSession F
        → Prediction F
        → Time
        → Responder F S
    unfolding block note_activity publish_block_event session_block_event session_alert session_id
        should_alert emit_session_alert
    respond_to_prediction policy is_final r key session prediction now =
        let ip = session.src_ip in
        if should_alert means.scores prediction
        then (let (r1, reply) = block r ip policy.ml_confirmed_block_seconds now in
            let kind = if is_final then "ml_completed_flow_update" else "ml_attack_detected" in
            let alert =
              session_alert kind (if is_final then some true else none) prediction reply
                policy.ml_confirmed_block_seconds session in
            let r2 : Responder F S = record r1 {
              alerts =
                  emit_session_alert means.scores r1.alerts (session_id means.texts.show key) alert
                    is_final;
            } in
            let r3 : Responder F S =
              if reply.0
              then publish_block_event r2 (
                  session_block_event means.texts (if is_final then "ml-final-" else "ml-live-") key
                    session prediction.label)
              else r2 in
            note_activity r3 ip prediction.label (action_of (reply.0)) session.last_seen)
        else r
