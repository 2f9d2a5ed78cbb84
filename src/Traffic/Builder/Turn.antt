-- ===== src/Traffic/Builder/Turn.antt =====
-- What the calls of the builder for one packet leave, one after the other as the processor makes
-- them: `process_packet`, `drain_finalized_sessions`, `should_predict`, `finalize_session_if_needed`.
use smart_ids.Base.{
  ◌≡◌, refl, ap, ◌∙◌, Bool, Option, none, some, [], ◌++◌, arith, if◌then◌else◌, Bool-cases,
  Option-cases, inl, inr, subst, sym,
}
use smart_ids.Dict.{
  keys, IsDistinct, get, put, get-put_self, keys-put, keys-pop, add-IsDistinct, discard-IsDistinct,
  pop_all-IsDistinct,
}
use smart_ids.Packet.{PacketData, Time}
use smart_ids.Traffic.Stats.{Floats}
use smart_ids.Traffic.Session.{
  key_eq, from_packet, TrafficSession, is_finished, new_session, update,
}
use smart_ids.Traffic.Builder.{
  SessionBuilder, Finalized, stale_items, expire_stale_sessions, mark_for_final_prediction,
  should_predict, finalize_session_if_needed, drain_finalized_sessions, ensure_session, session_at,
  process_packet, prediction_due,
}
use smart_ids.Traffic.Builder.Expiry.{
  item_keys, finalize_stale-tables, stale_sessions, expire_stale_sessions-pending,
}

-- A builder between two packets: each key is there once, and no finalized session waits.
pub record IsSettled {F : Type 0} (b : SessionBuilder F) : Type 0 where
  pub distinct : IsDistinct (keys b.sessions)
  pub drained : b.pending_finalizations ≡ []

module _ {F : Type 0} where
  expire-IsDistinct :
      (b : SessionBuilder F) (now : Time)
      → IsDistinct (keys b.sessions)
      → IsDistinct (keys (expire_stale_sessions b now).sessions)
  unfolding expire_stale_sessions
  expire-IsDistinct b now h =
      rw ((finalize_stale-tables (stale_items now b.sessions) b).0)
        (pop_all-IsDistinct b.sessions (item_keys (stale_items now b.sessions)) h)

  pub should_predict-sessions :
      (b : SessionBuilder F) (packet : PacketData)
      → ((should_predict b packet).0.sessions ≡ b.sessions)
        × ((should_predict b packet).0.pending_finalizations ≡ b.pending_finalizations)
  unfolding should_predict
  should_predict-sessions b packet = elim (Option-cases (get b.sessions (from_packet packet))) [
    | inl e ↦ rw (should_predict, e) (refl, refl)
    | inr (session, e) ↦ elim (Option-cases (get b.prediction_state (from_packet packet))) [
      | inl e' ↦ rw (should_predict, e, e') (refl, refl)
      | inr (state, e') ↦ elim (Bool-cases (prediction_due session state)) [
        | inl d ↦ rw (should_predict, e, e', d) (refl, refl)
        | inr d ↦ rw (should_predict, e, e', d) (refl, refl)
      ]
    ]
  ]

  abbrev pub flow_end : TrafficSession F → PacketData → Finalized F
  flow_end session packet = record {
    session = session;
    session_key = from_packet packet;
    reason = "flow_end";
  }

  pub finalize_session_if_needed-some :
      (b : SessionBuilder F) (packet : PacketData) (session : TrafficSession F)
      → get b.sessions (from_packet packet) ≡ some session
      → (finalize_session_if_needed b packet).1
        ≡ (if is_finished session then some (flow_end session packet) else none)
  unfolding finalize_session_if_needed
  finalize_session_if_needed-some b packet session e = elim (Bool-cases (is_finished session)) [
    | inl d ↦ rw (finalize_session_if_needed, e, d) refl
    | inr d ↦ rw (finalize_session_if_needed, e, d) refl
  ]

  finalize-IsSettled :
      (b : SessionBuilder F) (packet : PacketData)
      → IsSettled b
      → IsSettled (finalize_session_if_needed b packet).0
  unfolding finalize_session_if_needed
  finalize-IsSettled b packet h = elim (Option-cases (get b.sessions (from_packet packet))) [
    | inl e ↦ rw (finalize_session_if_needed, e) h
    | inr (session, e) ↦ elim (Bool-cases (is_finished session)) [
      | inl d ↦
          rw (finalize_session_if_needed, e, d)
            (record {
              distinct =
                  rw (keys-pop b.sessions (from_packet packet))
                    (discard-IsDistinct (from_packet packet) (keys b.sessions) h.distinct);
              drained = h.drained;
            })
      | inr d ↦ rw (finalize_session_if_needed, e, d) h
    ]
  ]

  mark-sessions :
      (b : SessionBuilder F) (packet : PacketData)
      → ((mark_for_final_prediction b (from_packet packet)).sessions ≡ b.sessions)
        × ((mark_for_final_prediction b (from_packet packet)).pending_finalizations
            ≡ b.pending_finalizations)
  unfolding mark_for_final_prediction
  mark-sessions b packet = elim (Option-cases (get b.prediction_state (from_packet packet))) [
    | inl e ↦ rw (mark_for_final_prediction, e) (refl, refl)
    | inr (state, e) ↦ rw (mark_for_final_prediction, e) (refl, refl)
  ]

module _ {F : Type 0} ⦃f : Floats F⦄ where
  ensure-pending :
      (b : SessionBuilder F) (packet : PacketData)
      → (ensure_session b packet).pending_finalizations ≡ b.pending_finalizations
  unfolding ensure_session
  ensure-pending b packet = ground arith

  ensure-IsDistinct :
      (b : SessionBuilder F) (packet : PacketData)
      → IsDistinct (keys b.sessions)
      → IsDistinct (keys (ensure_session b packet).sessions)
  unfolding ensure_session
  ensure-IsDistinct b packet h = elim (Option-cases (get b.sessions (from_packet packet))) [
    | inl e ↦
        rw (ensure_session, e, keys-put b.sessions (from_packet packet) (new_session packet))
          (add-IsDistinct (from_packet packet) (keys b.sessions) h)
    | inr (session, e) ↦ rw (ensure_session, e) h
  ]

  -- After `process_packet`: the table, and what waits.
  process_packet-tables :
      (b : SessionBuilder F) (packet : PacketData)
      → (let b1 = ensure_session (expire_stale_sessions b packet.timestamp) packet in
          ((process_packet b packet).0.sessions
            ≡ put b1.sessions (from_packet packet) (process_packet b packet).1)
          × ((process_packet b packet).0.pending_finalizations ≡ b1.pending_finalizations))
  unfolding process_packet
  process_packet-tables b packet =
      let b1 = ensure_session (expire_stale_sessions b packet.timestamp) packet in
      let session = update (session_at b1 packet) packet in
      let b2 : SessionBuilder F = record b1 {
        sessions = put b1.sessions (from_packet packet) session;
      } in
      elim (Bool-cases (is_finished session)) [
        | inl e ↦ rw e (mark-sessions b2 packet)
        | inr e ↦ rw e (refl, refl)
      ]

  pub process_packet-get :
      (b : SessionBuilder F) (packet : PacketData)
      → get (process_packet b packet).0.sessions (from_packet packet)
        ≡ some (process_packet b packet).1
  process_packet-get b packet =
      rw ((process_packet-tables b packet).0) (get-put_self _ (from_packet packet) _)

  pub process_packet-pending :
      (b : SessionBuilder F) (packet : PacketData)
      → IsSettled b
      → (process_packet b packet).0.pending_finalizations
        ≡ stale_sessions packet.timestamp b.sessions
  process_packet-pending b packet h =
      (process_packet-tables b packet).1
      ∙ ensure-pending (expire_stale_sessions b packet.timestamp) packet
      ∙ expire_stale_sessions-pending b packet.timestamp h.distinct
      ∙ ap (λ l. l ++ stale_sessions packet.timestamp b.sessions) h.drained

  process_packet-IsDistinct :
      (b : SessionBuilder F) (packet : PacketData)
      → IsDistinct (keys b.sessions)
      → IsDistinct (keys (process_packet b packet).0.sessions)
  process_packet-IsDistinct b packet h =
      let b1 = ensure_session (expire_stale_sessions b packet.timestamp) packet in
      let d1 =
        ensure-IsDistinct (expire_stale_sessions b packet.timestamp) packet
          (expire-IsDistinct b packet.timestamp h) in
      subst (λ d. IsDistinct (keys d)) (sym (process_packet-tables b packet).0)
        (subst IsDistinct
          (sym (keys-put b1.sessions (from_packet packet) (process_packet b packet).1))
          (add-IsDistinct (from_packet packet) (keys b1.sessions) d1))

  -- The parts of a turn: the session, the builder after the finalized sessions are drained, whether
  -- a prediction is due, and the session that has ended.
  abbrev pub session_of : SessionBuilder F → PacketData → TrafficSession F
  session_of b packet = (process_packet b packet).1

  abbrev pub drained_builder : SessionBuilder F → PacketData → SessionBuilder F
  drained_builder b packet = (drain_finalized_sessions (process_packet b packet).0).0

  abbrev pub is_due : SessionBuilder F → PacketData → Bool
  is_due b packet = (should_predict (drained_builder b packet) packet).1

  abbrev pub ended_of : SessionBuilder F → PacketData → Option (Finalized F)
  ended_of b packet =
      (finalize_session_if_needed (should_predict (drained_builder b packet) packet).0 packet).1

  -- The builder after all four calls.
  unfoldable pub turn : SessionBuilder F → PacketData → SessionBuilder F
  turn b packet =
      (finalize_session_if_needed (should_predict (drained_builder b packet) packet).0 packet).0

  pub turn-IsSettled :
      (b : SessionBuilder F) (packet : PacketData) → IsSettled b → IsSettled (turn b packet)
  unfolding turn drain_finalized_sessions
  turn-IsSettled b packet h =
      let b2 = (drain_finalized_sessions (process_packet b packet).0).0 in
      let (same, rest) = should_predict-sessions b2 packet in
      finalize-IsSettled (should_predict b2 packet).0 packet (record {
        distinct = rw same (process_packet-IsDistinct b packet h.distinct);
        drained = rest;
      })
