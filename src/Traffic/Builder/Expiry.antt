-- ===== src/Traffic/Builder/Expiry.antt =====
-- Which sessions `_expire_stale_sessions` ends, and what becomes of them.
use smart_ids.Base.{
  ◌==◌, ◌≡◌, refl, ap, sym, ◌∙◌, Bool, true, false, Option, none, some, List, [], ◌∷◌, ◌++◌, String,
  All, arith, if◌then◌else◌, Bool-cases, Option-cases, inl, inr, append_assoc, append-nil, beq_refl,
}
use smart_ids.Dict.{
  Dict, keys, contains, IsDistinct, get, pop, pop_all, get-pop, get-pop_all, contains-keys,
}
use smart_ids.Packet.{Time}
use smart_ids.Traffic.Session.{SessionKey, key_eq, TrafficSession}
use smart_ids.Traffic.Builder.{
  SessionBuilder, Finalized, stale_reason, stale_items, finalize_stale, expire_stale_sessions,
}

abbrev pub item_keys : List (SessionKey × String) → List SessionKey
item_keys [] = []
item_keys ((key, reason) ∷ items) = key ∷ item_keys items

contains-same :
    (j key : SessionKey) (ks : List SessionKey)
    → (j == key) ≡ true
    → contains j ks ≡ contains key ks
contains-same j key ks e = ap (λ k. contains k ks) ((key_eq.beq_iff j key).0 e)

module _ {F : Type 0} where
  -- What is left of a table's entry at the time `now`.
  abbrev pub unless_stale : Time → Option (TrafficSession F) → Option (TrafficSession F)
  unless_stale now none = none
  unless_stale now (some session) = elim (stale_reason now session) [
    | none ↦ some session
    | some reason ↦ none
  ]

  abbrev pub stale_now : Time → Option (TrafficSession F) → Bool
  stale_now now none = false
  stale_now now (some session) = elim (stale_reason now session) [ none ↦ false | some _ ↦ true ]

  -- The sessions of a table that are stale at `now`, in the table's order, each with its reason.
  unfoldable pub stale_sessions : Time → Dict SessionKey (TrafficSession F) → List (Finalized F)
  stale_sessions now [] = []
  stale_sessions now ((key, session) ∷ rest) =
      let others = stale_sessions now rest in
      elim (stale_reason now session) [
        | none ↦ others
        | some reason ↦ record { session = session; session_key = key; reason = reason } ∷ others
      ]

  contains-stale_items :
      (now : Time) (d : Dict SessionKey (TrafficSession F)) (key : SessionKey)
      → IsDistinct (keys d)
      → contains key (item_keys (stale_items now d)) ≡ stale_now now (get d key)
  unfolding contains stale_items get
  contains-stale_items now [] key h = refl
  contains-stale_items now ((j, session) ∷ d) key h =
      let ih = contains-stale_items now d key h.1 in
      elim (Option-cases (stale_reason now session)) [
        | inl fresh ↦ elim (Bool-cases (j == key)) [
          | inl same ↦
              ground (
                arith,
                fresh,
                same,
                ih,
                contains-keys d key,
                h.0,
                contains-same j key (keys d) same,
              )
          | inr other ↦ ground (arith, fresh, other, ih)
        ]
        | inr (reason, e) ↦ ground (arith, e, ih)
      ]

  pub finalize_stale-tables :
      (items : List (SessionKey × String)) (b : SessionBuilder F)
      → ((finalize_stale b items).sessions ≡ pop_all b.sessions (item_keys items))
        × ((finalize_stale b items).prediction_state ≡ pop_all b.prediction_state (item_keys items))
  unfolding finalize_stale pop_all
  finalize_stale-tables [] b = (refl, refl)
  finalize_stale-tables ((key, reason) ∷ items) b = finalize_stale-tables items _

  -- The two tables after `_expire_stale_sessions`, where the table of the sessions has each key
  -- once: a stale session and its prediction state are gone, any other is as it was.
  pub expire_stale_sessions_exact :
      (b : SessionBuilder F) (now : Time) (key : SessionKey)
      → IsDistinct (keys b.sessions)
      → (get (expire_stale_sessions b now).sessions key ≡ unless_stale now (get b.sessions key))
        × (get (expire_stale_sessions b now).prediction_state key
            ≡ (if stale_now now (get b.sessions key) then none else get b.prediction_state key))
  unfolding expire_stale_sessions
  expire_stale_sessions_exact b now key h =
      let items = stale_items now b.sessions in
      let tables = finalize_stale-tables items b in
      let found = contains-stale_items now b.sessions key h in
      (
        ap (λ d. get d key) tables.0
            ∙ get-pop_all b.sessions (item_keys items) key
            ∙ rw found (kept (get b.sessions key)),
        ap (λ d. get d key) tables.1
            ∙ get-pop_all b.prediction_state (item_keys items) key
            ∙ rw found refl,
      )
    where
      kept :
          (o : Option (TrafficSession F))
          → (if stale_now now o then none else o) ≡ unless_stale now o
      kept none = refl
      kept (some session) = ground arith

  -- The entries of `d` are in the table.
  abbrev Present : Dict SessionKey (TrafficSession F) → Dict SessionKey (TrafficSession F) → Type 0
  Present table d = All (λ entry. get table entry.0 ≡ some entry.1) d

  Present-pop :
      (table d : Dict SessionKey (TrafficSession F)) (j : SessionKey)
      → contains j (keys d) ≡ false
      → Present table d
      → Present (pop table j) d
  unfolding contains
  Present-pop table [] j h p = tt
  Present-pop table ((k, session) ∷ d) j h p = (
    ground (arith, get-pop table j k, h, p.0, key_eq.beq_iff j k, key_eq.beq_iff k j),
    Present-pop table d j (ground (arith, h)) p.1,
  )

  Present-cons :
      (table d : Dict SessionKey (TrafficSession F)) (j : SessionKey) (old : TrafficSession F)
      → contains j (keys d) ≡ false
      → Present table d
      → Present ((j, old) ∷ table) d
  unfolding contains get
  Present-cons table [] j old h p = tt
  Present-cons table ((k, session) ∷ d) j old h p = (
    ground (arith, h, p.0, key_eq.beq_iff j k, key_eq.beq_iff k j),
    Present-cons table d j old (ground (arith, h)) p.1,
  )

  Present-self : (d : Dict SessionKey (TrafficSession F)) → IsDistinct (keys d) → Present d d
  unfolding get
  Present-self [] h = tt
  Present-self ((j, session) ∷ d) h =
      (rw (beq_refl j) refl, Present-cons d d j session h.0 (Present-self d h.1))

  abbrev finalized_one : SessionBuilder F → Finalized F → SessionBuilder F
  finalized_one b ended = record b {
    sessions = pop b.sessions ended.session_key;
    prediction_state = pop b.prediction_state ended.session_key;
    pending_finalizations = b.pending_finalizations ++ ended ∷ [];
  }

  finalize_stale-found :
      (b : SessionBuilder F) (key : SessionKey) (session : TrafficSession F) (reason : String)
      (items : List (SessionKey × String))
      → get b.sessions key ≡ some session
      → finalize_stale b ((key, reason) ∷ items)
        ≡ finalize_stale
            (finalized_one b (record { session = session; session_key = key; reason = reason }))
            items
  unfolding finalize_stale
  finalize_stale-found b key session reason items e =
      ap
        (λ o.
          finalize_stale
            (record b {
              sessions = pop b.sessions key;
              prediction_state = pop b.prediction_state key;
              pending_finalizations = elim o as (λ _. List (Finalized F)) [
                | none ↦ b.pending_finalizations
                | some session ↦
                    b.pending_finalizations
                    ++ record { session = session; session_key = key; reason = reason } ∷ []
              ];
            })
            items)
        e

  nothing_stale :
      (b : SessionBuilder F)
      → (finalize_stale b []).pending_finalizations ≡ b.pending_finalizations ++ []
  unfolding finalize_stale
  nothing_stale b = sym (append-nil b.pending_finalizations)

  finalize_stale-pending :
      (now : Time) (d : Dict SessionKey (TrafficSession F)) (b : SessionBuilder F)
      → IsDistinct (keys d)
      → Present b.sessions d
      → (finalize_stale b (stale_items now d)).pending_finalizations
        ≡ b.pending_finalizations ++ stale_sessions now d
  unfolding stale_items stale_sessions
  finalize_stale-pending now [] b h p = nothing_stale b
  finalize_stale-pending now ((key, session) ∷ d) b h p =
      elim (Option-cases (stale_reason now session)) [
        | inl fresh ↦
            rw (stale_items, stale_sessions, fresh) (finalize_stale-pending now d b h.1 p.1)
        | inr (reason, e) ↦
            let ended : Finalized F = record {
              session = session;
              session_key = key;
              reason = reason;
            } in
            rw (stale_items, stale_sessions, e)
              (ap (λ c. c.pending_finalizations)
                  (finalize_stale-found b key session reason (stale_items now d) p.0)
                ∙ finalize_stale-pending now d (finalized_one b ended) h.1
                    (Present-pop b.sessions d key h.0 p.1)
                ∙ append_assoc b.pending_finalizations (ended ∷ []) (stale_sessions now d))
      ]

  -- The stale sessions, where the table has each key once, are appended to the finalized ones that
  -- wait, all of them and once each, in the table's order, with their reasons.
  pub expire_stale_sessions-pending :
      (b : SessionBuilder F) (now : Time)
      → IsDistinct (keys b.sessions)
      → (expire_stale_sessions b now).pending_finalizations
        ≡ b.pending_finalizations ++ stale_sessions now b.sessions
  unfolding expire_stale_sessions
  expire_stale_sessions-pending b now h =
      finalize_stale-pending now b.sessions b h (Present-self b.sessions h)
