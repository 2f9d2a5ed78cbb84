-- ===== src/Tests/Traffic.antt =====
-- The sessions and their builder.
use smart_ids.Base.{◌*◌, ◌≡◌, refl, ℕ, false, none, some, [], ◌∷◌, if◌then◌else◌}
use smart_ids.Dict.{get, keys, IsDistinct, contains}
use smart_ids.Packet.{second}
use smart_ids.Traffic.Session.{key_eq, from_packet, new_session, update, is_finished}
use smart_ids.Traffic.Session.Counts.{IsConsistent, new_session-IsConsistent, update-IsConsistent}
use smart_ids.Traffic.Builder.{SessionBuilder, expire_stale_sessions, should_predict}
use smart_ids.Traffic.Builder.Expiry.{unless_stale, stale_now, expire_stale_sessions_exact}
use smart_ids.Traffic.Builder.Prediction.{should_predict_again}
use smart_ids.Tests.Data.{syn_packet, ack_packet, whole_numbers}

update-IsConsistent_example : IsConsistent {F = ℕ} (update (new_session syn_packet) ack_packet)
update-IsConsistent_example =
    update-IsConsistent {F = ℕ} (new_session syn_packet) ack_packet
      (new_session-IsConsistent syn_packet)

abbrev one_session : SessionBuilder ℕ
one_session = record {
  sessions = (from_packet syn_packet, new_session syn_packet) ∷ [];
  prediction_state =
      (
        from_packet syn_packet,
        record { last_prediction_packet_count = 0; last_prediction_time = 10 * second },
      )
      ∷ [];
  pending_finalizations = [];
}

one_key : IsDistinct (keys one_session.sessions)
unfolding contains
one_key = (refl, tt)

expire_stale_sessions_exact_example :
    (get (expire_stale_sessions one_session (50 * second)).sessions (from_packet syn_packet)
      ≡ unless_stale (50 * second) (get one_session.sessions (from_packet syn_packet)))
    × (get
          (expire_stale_sessions one_session (50 * second)).prediction_state
          (from_packet syn_packet)
        ≡ (if stale_now (50 * second) (get one_session.sessions (from_packet syn_packet))
            then none
            else get one_session.prediction_state (from_packet syn_packet)))
expire_stale_sessions_exact_example =
    expire_stale_sessions_exact one_session (50 * second) (from_packet syn_packet) one_key

found : get one_session.sessions (from_packet syn_packet) ≡ some (new_session syn_packet)
unfolding get from_packet
found = refl

still_open : is_finished {F = ℕ} (new_session syn_packet) ≡ false
unfolding is_finished new_session
still_open = refl

should_predict_again_example :
    (should_predict (should_predict one_session syn_packet).0 syn_packet).1 ≡ false
should_predict_again_example =
    should_predict_again one_session syn_packet (new_session syn_packet) found still_open
