-- ===== src/Forwarding/Publisher/Progress.antt =====
-- What a worker gets done while the backend accepts everything.
use smart_ids.Base.{
  ℕ, zero, suc, ◌-◌, ◌*◌, ◌≡◌, refl, ap, sym, ◌∙◌, subst, Bool, true, some, List, [], ◌∷◌, ◌++◌,
  length, take, drop, ltb, if◌then◌else◌, arith, tests, Bool-cases, inl, inr, length-drop,
}
use smart_ids.Forwarding.Spill.{Json, DiskSpillStore, peek_batch, discard_batch, spill_is_empty}
use smart_ids.Forwarding.Spill.Refinement.{IsJson, Holds, discard_batch-Holds, peek_batch-Holds}
use smart_ids.Forwarding.Publisher.{
  spill_drain_batch_size, replay, drain_spill_backlog, dispatch, BackgroundPublisher, run_once,
}
use smart_ids.Forwarding.Publisher.Delivery.{Delivered}

drop-length-take : {A : Type 0} (n : ℕ) (xs : List A) → drop (length (take n xs)) xs ≡ drop n xs
drop-length-take zero xs = refl
drop-length-take (suc n) [] = refl
drop-length-take (suc n) (x ∷ xs) = drop-length-take n xs

-- What is published while the queue `queue` is worked off: after each payload a batch of the backlog.
abbrev pub sent : {P : Type 0} → List P → List P → List P
sent [] backlog = []
sent (p ∷ queue) backlog =
    p ∷ (take spill_drain_batch_size backlog ++ sent queue (drop spill_drain_batch_size backlog))

-- The backlog that is left after as many batches.
abbrev pub left_over : {P : Type 0} → List P → List P → List P
left_over [] backlog = backlog
left_over (p ∷ queue) backlog = left_over queue (drop spill_drain_batch_size backlog)

length-left_over :
    {P : Type 0} (queue backlog : List P)
    → length (left_over queue backlog) ≡ length backlog - length queue * spill_drain_batch_size
length-left_over [] backlog = omega arith
length-left_over (p ∷ queue) backlog = omega (
  arith,
  length-left_over queue (drop spill_drain_batch_size backlog),
  length-drop spill_drain_batch_size backlog,
)

module _ {W P : Type 0} (json : Json P) (publish : W → P → W × Bool) where
  -- Every payload is accepted.
  abbrev pub Healthy : Type 0
  Healthy = (w : W) (p : P) → (publish w p).1 ≡ true

  -- So many turns of the worker.
  unfoldable pub turns : ℕ → W → BackgroundPublisher P → W × BackgroundPublisher P
  unfolding run_once
  turns zero w b = (w, b)
  turns (suc n) w b = let done = run_once json publish w b in turns n done.0 done.1

  -- The publisher has these payloads in its queue and these in its spill file.
  pub record Waiting (b : BackgroundPublisher P) (queue backlog : List P) : Type 0 where
    pub queued : b.queue ≡ queue
    pub store : DiskSpillStore
    pub spilled : b.spill_store ≡ some store
    pub holds : Holds json store backlog

  Delivered-append :
      {w w' w'' : W} {xs ys : List P}
      → Delivered publish w xs w'
      → Delivered publish w' ys w''
      → Delivered publish w (xs ++ ys) w''
  Delivered-append Delivered.nothing e = e
  Delivered-append (Delivered.next p h d) e = Delivered.next p h (Delivered-append d e)

  module _ (healthy : Healthy) where
    replay-all :
        (w : W) (items : List P)
        → Delivered publish w items (replay publish w items).0
          × ((replay publish w items).1 ≡ length items)
    unfolding replay
    replay-all w [] = (Delivered.nothing, refl)
    replay-all w (p ∷ items) =
        let ih = replay-all (publish w p).0 items in
        rw (healthy w p) (Delivered.next p (healthy w p) ih.0, ap suc ih.1)

    module _ (law : IsJson json) where
      -- The state that a batch of the backlog leaves, and what it delivers.
      drain-Holds :
          (w : W) (store : DiskSpillStore) (backlog : List P)
          → Holds json store backlog
          → Delivered publish w
              (take spill_drain_batch_size backlog)
              (drain_spill_backlog json publish w store).0
            × Holds json
                (drain_spill_backlog json publish w store).1
                (drop spill_drain_batch_size backlog)
      unfolding drain_spill_backlog
      drain-Holds w store backlog h =
          let batch = peek_batch json store spill_drain_batch_size in
          let same : batch ≡ take spill_drain_batch_size backlog =
            peek_batch-Holds json law store backlog spill_drain_batch_size h in
          let all = replay-all w batch in
          let n = (replay publish w batch).1 in
          let cut : drop n backlog ≡ drop spill_drain_batch_size backlog =
            ap (λ k. drop k backlog) (all.1 ∙ ap length same)
            ∙ drop-length-take spill_drain_batch_size backlog in
          (
            subst (λ xs. Delivered publish w xs (replay publish w batch).0) same all.0,
            subst (λ xs. Holds json (if ltb 0 n then discard_batch json store n else store) xs) cut
                (kept n),
          )
        where
          kept :
              (n : ℕ)
              → Holds json (if ltb 0 n then discard_batch json store n else store) (drop n backlog)
          kept zero = h
          kept (suc n) =
              let e : ltb 0 (suc n) ≡ true = ground arith in
              rw e (discard_batch-Holds json law store backlog (suc n) h)

      empty-backlog :
          (store : DiskSpillStore) (backlog : List P)
          → Holds json store backlog
          → spill_is_empty store ≡ true
          → backlog ≡ []
      unfolding spill_is_empty
      empty-backlog store [] h e = refl
      empty-backlog store (p ∷ backlog) h e = absurd (grind (arith, tests, h.counted, e))

      dispatch-Waiting :
          (w : W) (p : P) (store : DiskSpillStore) (backlog : List P)
          → Holds json store backlog
          → (after : DiskSpillStore) × ((dispatch json publish w (some store) p).1 ≡ some after)
            × Holds json after (drop spill_drain_batch_size backlog)
            × Delivered publish w
                (p ∷ take spill_drain_batch_size backlog)
                (dispatch json publish w (some store) p).0
      unfolding dispatch
      dispatch-Waiting w p store backlog h = elim (Bool-cases (spill_is_empty store)) [
        | inl e ↦
            let nil = empty-backlog store backlog h e in
            rw (healthy w p, e)
              (
                store,
                refl,
                subst (λ xs. Holds json store (drop spill_drain_batch_size xs)) (sym nil)
                    (subst (Holds json store) nil h),
                subst
                    (λ xs. Delivered publish w (p ∷ take spill_drain_batch_size xs) (publish w p).0)
                    (sym nil) (Delivered.next p (healthy w p) Delivered.nothing),
              )
        | inr e ↦
            let d = drain-Holds (publish w p).0 store backlog h in
            rw (healthy w p, e)
              (
                (drain_spill_backlog json publish (publish w p).0 store).1,
                refl,
                d.1,
                Delivered.next p (healthy w p) d.0,
              )
      ]

      run_once-Waiting :
          (w : W) (b : BackgroundPublisher P) (p : P) (queue backlog : List P)
          → Waiting b (p ∷ queue) backlog
          → Waiting (run_once json publish w b).1 queue (drop spill_drain_batch_size backlog)
            × Delivered publish w
                (p ∷ take spill_drain_batch_size backlog)
                (run_once json publish w b).0
      unfolding run_once
      run_once-Waiting w b p queue backlog h =
          let (after, same, held, delivered) = dispatch-Waiting w p h.store backlog h.holds in
          let now : run_once json publish w b ≡ (
              let done = dispatch json publish w (some h.store) p in
              (done.0, record b { queue = queue; spill_store = done.1 })) =
            simp (run_once, h.queued, h.spilled) refl in
          rw now (record { queued = refl; store = after; spilled = same; holds = held }, delivered)

      turns-Waiting :
          (queue backlog : List P) (w : W) (b : BackgroundPublisher P)
          → Waiting b queue backlog
          → Waiting (turns (length queue) w b).1 [] (left_over queue backlog)
            × Delivered publish w (sent queue backlog) (turns (length queue) w b).0
      unfolding turns
      turns-Waiting [] backlog w b h = (h, Delivered.nothing)
      turns-Waiting (p ∷ queue) backlog w b h =
          let (h1, d1) = run_once-Waiting w b p queue backlog h in
          let done = run_once json publish w b in
          let (h2, d2) =
            turns-Waiting queue (drop spill_drain_batch_size backlog) done.0 done.1 h1 in
          (h2, Delivered-append d1 d2)

      -- While the backend accepts everything, all that waits is delivered: after as many turns of
      -- the worker as the queue holds payloads, each of them was published once, in order, the queue
      -- is empty, and the backlog in the spill file was published from its oldest payload on and is
      -- shorter by 50 for each turn, or empty.
      pub turns-deliver :
          (queue backlog : List P) (w : W) (b : BackgroundPublisher P)
          → Waiting b queue backlog
          → Delivered publish w (sent queue backlog) (turns (length queue) w b).0
            × ((turns (length queue) w b).1.queue ≡ [])
            × Waiting (turns (length queue) w b).1 [] (left_over queue backlog)
            × (length (left_over queue backlog) ≡ length backlog - length queue * 50)
      turns-deliver queue backlog w b h =
          let (after, delivered) = turns-Waiting queue backlog w b h in
          (delivered, after.queued, after, length-left_over queue backlog)
