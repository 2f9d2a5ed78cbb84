-- ===== src/Traffic/Builder/Prediction.antt =====
-- How often `should_predict` says yes.
use smart_ids.Base.{
  nat_eq, ◌≡◌, refl, true, false, none, some, arith, tests, if◌then◌else◌, Bool-cases, Option-cases,
  inl, inr,
}
use smart_ids.Dict.{get, put, get-put_self}
use smart_ids.Packet.{PacketData}
use smart_ids.Traffic.Session.{key_eq, from_packet, TrafficSession, is_finished}
use smart_ids.Traffic.Builder.{SessionBuilder, PredictionState, prediction_due, should_predict}

module _ {F : Type 0} where
  -- Right after a prediction none is due, unless the session has ended.
  due-renewed :
      (session : TrafficSession F)
      → is_finished session ≡ false
      → prediction_due session (record {
        last_prediction_packet_count = session.packet_count;
        last_prediction_time = session.last_seen;
      })
        ≡ false
  unfolding prediction_due
  due-renewed session h = grind (arith, tests, h)

  abbrev renewed : SessionBuilder F → PacketData → TrafficSession F → SessionBuilder F
  renewed b packet session = record b {
    prediction_state = put b.prediction_state (from_packet packet) (record {
      last_prediction_packet_count = session.packet_count;
      last_prediction_time = session.last_seen;
    });
  }

  predict-none :
      (b : SessionBuilder F) (packet : PacketData) (session : TrafficSession F)
      → get b.sessions (from_packet packet) ≡ some session
      → get b.prediction_state (from_packet packet) ≡ none
      → should_predict b packet ≡ (b, false)
  unfolding should_predict
  predict-none b packet session e old = rw (should_predict, e, old) refl

  predict-some :
      (b : SessionBuilder F) (packet : PacketData) (session : TrafficSession F)
      (state : PredictionState)
      → get b.sessions (from_packet packet) ≡ some session
      → get b.prediction_state (from_packet packet) ≡ some state
      → should_predict b packet
        ≡ (if prediction_due session state then (renewed b packet session, true) else (b, false))
  unfolding should_predict
  predict-some b packet session state e old = rw (should_predict, e, old) refl

  -- Asked again without a packet in between, `should_predict` says no, whatever it said before,
  -- while the session of the packet has not ended.
  pub should_predict_again :
      (b : SessionBuilder F) (packet : PacketData) (session : TrafficSession F)
      → get b.sessions (from_packet packet) ≡ some session
      → is_finished session ≡ false
      → (should_predict (should_predict b packet).0 packet).1 ≡ false
  should_predict_again b packet session e h =
      elim (Option-cases (get b.prediction_state (from_packet packet))) [
        | inl unknown ↦ let same = predict-none b packet session e unknown in rw (same, same) refl
        | inr (state, old) ↦ elim (Bool-cases (prediction_due session state)) [
          | inl due ↦
              let now = predict-some b packet session state e old in
              let kept = get-put_self b.prediction_state (from_packet packet) _ in
              let then' = predict-some (renewed b packet session) packet session _ e kept in
              rw (now, due) (rw (then', due-renewed session h) refl)
          | inr not_due ↦
              let same = predict-some b packet session state e old in
              rw (same, not_due) (rw (same, not_due) refl)
        ]
      ]
