-- ===== src/Realtime/Backoff.antt =====
-- How long the websocket client waits between two connections, and how often.
use smart_ids.Base.{
  ℕ, suc, ◌+◌, ◌*◌, ◌^◌, ◌≤◌, ◌<◌, min, ◌≡◌, refl, false, none, some, List, [], ◌∷◌, String, All,
  length, ltb, lt→ltb, ltb→lt, arith, tests, Bool-cases, inl, inr,
}
use smart_ids.Packet.{Time}
use smart_ids.Response.Blocker.{Reply}
use smart_ids.Realtime.{
  EngineWsClient, Turn, LoopEnd, crashed, next_backoff_delay, float_exponent_limit, run_connection,
  connect_loop,
}

-- What is documented of `random.uniform`.
abbrev pub IsUniform : (Time → Time → Time) → Type 0
IsUniform uniform = (a b : Time) → a ≤ b → (a ≤ uniform a b) × (uniform a b ≤ b)

module _ (uniform : Time → Time → Time) where
  delay-some :
      (base cap : Time) (attempt : ℕ)
      → attempt < float_exponent_limit
      → next_backoff_delay uniform base cap attempt
        ≡ some (uniform 0 (min cap (base * 2 ^ attempt)))
  unfolding next_backoff_delay
  delay-some base cap attempt h =
      rw (next_backoff_delay, lt→ltb attempt float_exponent_limit h) refl

  delay-none :
      (base cap : Time) (attempt : ℕ)
      → float_exponent_limit ≤ attempt
      → next_backoff_delay uniform base cap attempt ≡ none
  unfolding next_backoff_delay
  delay-none base cap attempt h = elim (Bool-cases (ltb attempt float_exponent_limit)) [
    | inl e ↦ absurd (grind (arith, tests, h, e))
    | inr e ↦ rw (next_backoff_delay, e) refl
  ]

  -- Before the first 1024 connections have ended, the wait is at most the cap and at most the base
  -- doubled once for each connection before; after that none can be computed, and the loop raises.
  pub next_backoff_delay-bounds :
      IsUniform uniform
      → (base cap : Time) (attempt : ℕ)
      → (attempt < float_exponent_limit
          → (delay : Time) × (next_backoff_delay uniform base cap attempt ≡ some delay)
            × (delay ≤ cap)
            × (delay ≤ base * 2 ^ attempt))
        × (float_exponent_limit ≤ attempt → next_backoff_delay uniform base cap attempt ≡ none)
  next_backoff_delay-bounds documented base cap attempt = (
    λ h.
        let bound = base * 2 ^ attempt in
        let within = documented 0 (min cap bound) (omega arith) in
        (
          uniform 0 (min cap bound),
          delay-some base cap attempt h,
          omega (arith, within.1),
          omega (arith, within.1),
        ),
    delay-none base cap attempt,
  )

-- `stop` is not called in the turn.
abbrev pub GoesOn : {C : Type 0} → Turn C → Type 0
GoesOn turn = (turn.stopped_before ≡ false) × (turn.stopped_after ≡ false)

module _ {W C : Type 0} (apply_command : W → C → W × Reply) (command_id_of : C → String)
    (no_payload : C) (uniform : Time → Time → Time) where
  abbrev loop : ℕ → EngineWsClient W C → List (Turn C) → EngineWsClient W C × List Time × LoopEnd
  loop = connect_loop apply_command command_id_of no_payload uniform

  loop-crashed :
      (attempt : ℕ) (client : EngineWsClient W C) (turns : List (Turn C))
      → All GoesOn turns
      → float_exponent_limit < attempt + length turns
      → attempt ≤ float_exponent_limit
      → (loop attempt client turns).2 ≡ crashed
  unfolding connect_loop
  loop-crashed attempt client [] g h k = absurd (omega (arith, h, k))
  loop-crashed attempt client (turn ∷ turns) (g, gs) h k =
      elim (Bool-cases (ltb attempt float_exponent_limit)) [
        | inl e ↦
            let early : attempt < float_exponent_limit = ltb→lt attempt float_exponent_limit e in
            rw
              (
                g.0,
                g.1,
                delay-some uniform client.reconnect_base client.reconnect_cap attempt early,
              )
              (loop-crashed (suc attempt) _ turns gs (omega (arith, h)) (omega (arith, early)))
        | inr e ↦
            let late : float_exponent_limit ≤ attempt = grind (arith, tests, e) in
            rw
              (g.0, g.1, delay-none uniform client.reconnect_base client.reconnect_cap attempt late)
              refl
      ]

  loop-waits :
      (attempt : ℕ) (client : EngineWsClient W C) (turns : List (Turn C))
      → attempt ≤ float_exponent_limit
      → attempt + length (loop attempt client turns).1 ≤ float_exponent_limit
  unfolding connect_loop
  loop-waits attempt client [] k = omega (arith, k)
  loop-waits attempt client (turn ∷ turns) k =
      let client1 =
        run_connection apply_command command_id_of no_payload client turn.connection turn.now in
      elim (Bool-cases turn.stopped_before) [
        | inl s ↦ rw (connect_loop, s) (omega (arith, k))
        | inr s ↦ elim (Bool-cases turn.stopped_after) [
          | inl t ↦ rw (connect_loop, s, t) (omega (arith, k))
          | inr t ↦ elim (Bool-cases (ltb attempt float_exponent_limit)) [
            | inl e ↦
                let early : attempt < float_exponent_limit =
                  ltb→lt attempt float_exponent_limit e in
                rw
                  (
                    connect_loop,
                    s,
                    t,
                    delay-some uniform client.reconnect_base client.reconnect_cap attempt early,
                  )
                  (omega (arith, loop-waits (suc attempt) client1 turns (omega (arith, early))))
            | inr e ↦
                let late : float_exponent_limit ≤ attempt = grind (arith, tests, e) in
                rw
                  (
                    connect_loop,
                    s,
                    t,
                    delay-none uniform client.reconnect_base client.reconnect_cap attempt late,
                  )
                  (omega (arith, k))
          ]
        ]
      ]

  -- The loop of the client ends, whatever the connections bring and however long they last: it
  -- waits at most 1024 times, and if nobody stops it, it has crashed when 1025 connections are over.
  -- The number of connections before counts, also if each of them was opened and accepted.
  pub connect_loop_ends :
      (client : EngineWsClient W C) (turns : List (Turn C))
      → (length (connect_loop apply_command command_id_of no_payload uniform 0 client turns).1
          ≤ 1024)
        × (All GoesOn turns
            → 1024 < length turns
            → (connect_loop apply_command command_id_of no_payload uniform 0 client turns).2
              ≡ crashed)
  connect_loop_ends client turns = (
    omega (arith, loop-waits 0 client turns (omega arith)),
    λ g h. loop-crashed 0 client turns g (omega (arith, h)) (omega arith),
  )
