-- ===== src/Traffic/Builder.antt =====
-- traffic_engine/session_builder/session_builder.py. The lock makes each method one step.
pub mod Expiry
pub mod Prediction
pub mod Turn
use smart_ids.Base.{
  nat_eq, ◌==◌, ℕ, ◌-◌, ◌*◌, Bool, true, false, ◌&&◌, ◌||◌, Option, none, some, List, [], ◌∷◌, ◌++◌,
  String, leb, if◌then◌else◌,
}
use smart_ids.Dict.{Dict, get, put, pop, values}
use smart_ids.Packet.{PacketData, Time, second}
use smart_ids.Traffic.Stats.{Floats}
use smart_ids.Traffic.Session.{
  SessionKey, key_eq, from_packet, TrafficSession, new_session, update, age, is_finished,
}

abbrev pub idle_timeout : Time
idle_timeout = 30 * second

abbrev pub max_session_duration : Time
max_session_duration = 120 * second

abbrev pub min_prediction_age : Time
min_prediction_age = second

abbrev pub min_prediction_packet_count : ℕ
min_prediction_packet_count = 5

abbrev pub predict_every_n_packets : ℕ
predict_every_n_packets = 5

abbrev pub predict_every_m : Time
predict_every_m = second

pub record PredictionState : Type 0 where
  pub last_prediction_packet_count : ℕ
  pub last_prediction_time : Time

pub record Finalized (F : Type 0) : Type 0 where
  pub session : TrafficSession F
  pub session_key : SessionKey
  pub reason : String

pub record SessionBuilder (F : Type 0) : Type 0 where
  pub sessions : Dict SessionKey (TrafficSession F)
  pub prediction_state : Dict SessionKey PredictionState
  pub pending_finalizations : List (Finalized F)

module _ {F : Type 0} where
  unfoldable pub init : SessionBuilder F
  init = record { sessions = []; prediction_state = []; pending_finalizations = [] }

  -- The two tests of the loop of `_expire_stale_sessions`.
  unfoldable pub stale_reason : Time → TrafficSession F → Option String
  stale_reason now session =
      if leb idle_timeout (now - session.last_seen)
      then some "idle_timeout"
      else if leb max_session_duration (now - session.start_time)
      then some "max_duration"
      else none

  unfoldable pub stale_items :
      Time → Dict SessionKey (TrafficSession F) → List (SessionKey × String)
  unfolding stale_reason
  stale_items now [] = []
  stale_items now ((key, session) ∷ rest) =
      let others = stale_items now rest in
      elim (stale_reason now session) [ none ↦ others | some reason ↦ (key, reason) ∷ others ]

  -- The second loop.
  unfoldable pub finalize_stale : SessionBuilder F → List (SessionKey × String) → SessionBuilder F
  finalize_stale b [] = b
  finalize_stale b ((key, reason) ∷ rest) =
      finalize_stale
        (record b {
          sessions = pop b.sessions key;
          prediction_state = pop b.prediction_state key;
          pending_finalizations = elim (get b.sessions key) [
            | none ↦ b.pending_finalizations
            | some session ↦
                b.pending_finalizations
                ++ record { session = session; session_key = key; reason = reason } ∷ []
          ];
        })
        rest

  unfoldable pub expire_stale_sessions : SessionBuilder F → Time → SessionBuilder F
  unfolding stale_items finalize_stale
  expire_stale_sessions b now = finalize_stale b (stale_items now b.sessions)

  -- `_mark_session_for_final_prediction`
  unfoldable pub mark_for_final_prediction : SessionBuilder F → SessionKey → SessionBuilder F
  mark_for_final_prediction b key = elim (get b.prediction_state key) [
    | none ↦ b
    | some state ↦ record b {
      prediction_state =
          put b.prediction_state key (record state { last_prediction_packet_count = 0 });
    }
  ]

  -- The tests of `should_predict`.
  unfoldable pub prediction_due : TrafficSession F → PredictionState → Bool
  unfolding age is_finished
  prediction_due session state =
      let age_trigger = leb min_prediction_age (age session) in
      let packet_trigger = leb min_prediction_packet_count session.packet_count in
      let periodic_packet_trigger =
        leb predict_every_n_packets (session.packet_count - state.last_prediction_packet_count) in
      let periodic_time_trigger =
        leb predict_every_m (session.last_seen - state.last_prediction_time) in
      let minimum_ready = age_trigger && packet_trigger in
      (minimum_ready && state.last_prediction_packet_count == 0)
      || (minimum_ready && (periodic_packet_trigger || periodic_time_trigger))
      || is_finished session

  unfoldable pub should_predict : SessionBuilder F → PacketData → SessionBuilder F × Bool
  unfolding from_packet prediction_due
  should_predict b packet =
      let key = from_packet packet in
      elim (get b.sessions key) [
        | none ↦ (b, false)
        | some session ↦ elim (get b.prediction_state key) [
          | none ↦ (b, false)
          | some state ↦
              if prediction_due session state
              then (
                record b {
                  prediction_state = put b.prediction_state key (record {
                    last_prediction_packet_count = session.packet_count;
                    last_prediction_time = session.last_seen;
                  });
                },
                true,
              )
              else (b, false)
        ]
      ]

  unfoldable pub finalize_session_if_needed :
      SessionBuilder F → PacketData → SessionBuilder F × Option (Finalized F)
  unfolding from_packet is_finished
  finalize_session_if_needed b packet =
      let key = from_packet packet in
      elim (get b.sessions key) [
        | none ↦ (b, none)
        | some session ↦
            if is_finished session
            then (
              record b {
                sessions = pop b.sessions key;
                prediction_state = pop b.prediction_state key;
              },
              some (record { session = session; session_key = key; reason = "flow_end" }),
            )
            else (b, none)
      ]

  -- The list that is returned, and the builder with an empty one.
  unfoldable pub drain_finalized_sessions : SessionBuilder F → SessionBuilder F × List (Finalized F)
  drain_finalized_sessions b = (record b { pending_finalizations = [] }, b.pending_finalizations)

  unfoldable pub snapshot_sessions : SessionBuilder F → List (TrafficSession F)
  snapshot_sessions b = values b.sessions

module _ {F : Type 0} ⦃f : Floats F⦄ where
  -- The part of `process_packet` that makes sure there is a session.
  unfoldable pub ensure_session : SessionBuilder F → PacketData → SessionBuilder F
  unfolding from_packet new_session
  ensure_session b packet =
      let key = from_packet packet in
      elim (get b.sessions key) [
        | some session ↦ b
        | none ↦ record b {
          sessions = put b.sessions key (new_session packet);
          prediction_state = put b.prediction_state key (record {
            last_prediction_packet_count = 0;
            last_prediction_time = packet.timestamp;
          });
        }
      ]

  abbrev pub session_at : SessionBuilder F → PacketData → TrafficSession F
  session_at b packet = elim (get b.sessions (from_packet packet)) [
    | none ↦ new_session packet
    | some session ↦ session
  ]

  unfoldable pub process_packet :
      SessionBuilder F → PacketData → SessionBuilder F × TrafficSession F
  unfolding expire_stale_sessions ensure_session update is_finished mark_for_final_prediction
  process_packet b packet =
      let key = from_packet packet in
      let b1 = ensure_session (expire_stale_sessions b packet.timestamp) packet in
      let session = update (session_at b1 packet) packet in
      let b2 = record b1 { sessions = put b1.sessions key session } in
      (if is_finished session then mark_for_final_prediction b2 key else b2, session)
