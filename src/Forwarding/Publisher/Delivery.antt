-- ===== src/Forwarding/Publisher/Delivery.antt =====
-- What a worker delivers, and what it leaves in the spill file and in the queue.
use smart_ids.Base.{
  ℕ, zero, suc, ◌≤◌, ◌≡◌, refl, ap, sym, ◌∙◌, subst, max, Bool, true, false, Option, List, [], ◌∷◌,
  ◌++◌, length, take, drop, ltb, if◌then◌else◌, arith, tests, Bool-cases, inl, inr, length-append,
  take-append-drop,
}
use smart_ids.Forwarding.Spill.{Json, DiskSpillStore, peek_batch, discard_batch}
use smart_ids.Forwarding.Spill.Queue.{payloads, peek_batch-take, discard_batch-drop}
use smart_ids.Forwarding.Publisher.{
  spill_drain_batch_size, replay, drain_spill_backlog, BackgroundPublisher, submit, run_once, init,
}

-- From `w`, the payloads `done` were published one after the other, each with success, up to `w'`.
pub data Delivered {W P : Type 0} (publish : W → P → W × Bool) : W → List P → W → Type 0 where
  nothing : {w : W} → Delivered publish w [] w
  next :
      {w w' : W}
      → (p : P) → {done : List P} → (publish w p).1 ≡ true
      → Delivered publish (publish w p).0 done w'
      → Delivered publish w (p ∷ done) w'

-- How publishing the payloads `items` from `w` ended at `w'` with `done` delivered: all of them,
-- or the first that failed came next.
pub data Ended {W P : Type 0} (publish : W → P → W × Bool) : W → List P → W → List P → Type 0 where
  all_done :
      {w w' : W} {items : List P} → Delivered publish w items w' → Ended publish w items w' items
  stopped :
      {w w' : W} (done rest : List P) (p : P)
      → Delivered publish w done w'
      → (publish w' p).1 ≡ false
      → Ended publish w (done ++ p ∷ rest) (publish w' p).0 done

module _ {W P : Type 0} (json : Json P) (publish : W → P → W × Bool) where
  Ended-next :
      (w : W) (p : P)
      → (publish w p).1 ≡ true
      → {w' : W} {items done : List P} → Ended publish (publish w p).0 items w' done
      → Ended publish w (p ∷ items) w' (p ∷ done)
  Ended-next w p e (Ended.all_done d) = Ended.all_done (Delivered.next p e d)
  Ended-next w p e (Ended.stopped done rest q d h) =
      Ended.stopped (p ∷ done) rest q (Delivered.next p e d) h

  replay-Ended :
      (w : W) (items : List P)
      → Ended publish w items (replay publish w items).0 (take (replay publish w items).1 items)
  unfolding replay
  replay-Ended w [] = Ended.all_done Delivered.nothing
  replay-Ended w (p ∷ items) = elim (Bool-cases ((publish w p).1)) [
    | inl e ↦ rw e (Ended-next w p e (replay-Ended (publish w p).0 items))
    | inr e ↦ rw e (Ended.stopped [] items p Delivered.nothing e)
  ]

  replay-le : (w : W) (items : List P) → (replay publish w items).1 ≤ length items
  unfolding replay
  replay-le w [] = omega arith
  replay-le w (p ∷ items) = ground (arith, replay-le (publish w p).0 items)

  take-take :
      {A : Type 0} (n m : ℕ) (xs : List A) → n ≤ length (take m xs) → take n (take m xs) ≡ take n xs
  take-take zero m xs h = refl
  take-take (suc n) zero xs h = absurd (omega arith)
  take-take (suc n) (suc m) [] h = refl
  take-take (suc n) (suc m) (x ∷ xs) h = ap (◌∷◌ x) (take-take n m xs (omega arith))

  drain-payloads :
      (w : W) (store : DiskSpillStore)
      → payloads json (drain_spill_backlog json publish w store).1
        ≡ drop
            (replay publish w (peek_batch json store spill_drain_batch_size)).1
            (payloads json store)
  unfolding drain_spill_backlog
  drain-payloads w store = go (replay publish w (peek_batch json store spill_drain_batch_size)).1
    where
      go :
          (n : ℕ)
          → payloads json (if ltb 0 n then discard_batch json store n else store)
            ≡ drop n (payloads json store)
      go zero = refl
      go (suc n) =
          let e : ltb 0 (suc n) ≡ true = ground arith in
          rw e (discard_batch-drop json store (suc n))

  -- `_drain_spill_backlog` publishes the oldest payloads of the file, at most 50 of them, in their
  -- order, and stops at the first failure; the file then holds all its payloads but those that were
  -- delivered, in their order.
  pub drain_spill_backlog_exact :
      (w : W) (store : DiskSpillStore)
      → (done : List P) × Ended publish w
          (take spill_drain_batch_size (payloads json store))
          (drain_spill_backlog json publish w store).0
          done
        × (payloads json store ≡ done ++ payloads json (drain_spill_backlog json publish w store).1)
  unfolding drain_spill_backlog
  drain_spill_backlog_exact w store =
      let batch = peek_batch json store spill_drain_batch_size in
      let n = (replay publish w batch).1 in
      let same = peek_batch-take json store spill_drain_batch_size in
      let few : n ≤ length (take spill_drain_batch_size (payloads json store)) =
        subst (λ xs. n ≤ length xs) same (replay-le w batch) in
      (
        take n batch,
        subst (λ xs. Ended publish w xs (replay publish w batch).0 (take n batch)) same
            (replay-Ended w batch),
        sym (take-append-drop n (payloads json store))
            ∙ ap (λ xs. xs ++ drop n (payloads json store))
                (sym
                  (ap (take n) same ∙ take-take n spill_drain_batch_size (payloads json store) few))
            ∙ ap (λ ys. take n batch ++ ys) (sym (drain-payloads w store)),
      )

-- The publisher's states: what clients submit and what the worker takes, in any order.
pub data Reachable {W P : Type 0} (json : Json P) (publish : W → P → W × Bool)
    (max_queue_size log_every : ℕ) (spill_store : Option DiskSpillStore)
    : BackgroundPublisher P → Type 0 where
  start :
      Reachable json publish max_queue_size log_every spill_store
        (init max_queue_size log_every spill_store)
  submitted :
      {b : BackgroundPublisher P}
      → Reachable json publish max_queue_size log_every spill_store b
      → (p : P) → Reachable json publish max_queue_size log_every spill_store (submit b p).0
  worked :
      {b : BackgroundPublisher P}
      → Reachable json publish max_queue_size log_every spill_store b
      → (w : W)
      → Reachable json publish max_queue_size log_every spill_store (run_once json publish w b).1

module _ {W P : Type 0} (json : Json P) (publish : W → P → W × Bool) where
  run_once-queue :
      (w : W) (b : BackgroundPublisher P)
      → (length (run_once json publish w b).1.queue ≤ length b.queue)
        × ((run_once json publish w b).1.maxsize ≡ b.maxsize)
  unfolding run_once
  run_once-queue w b = go b.queue refl
    where
      go :
          (q : List P)
          → b.queue ≡ q
          → (length (run_once json publish w b).1.queue ≤ length b.queue)
            × ((run_once json publish w b).1.maxsize ≡ b.maxsize)
      go [] e = simp (run_once, e) (omega (arith, ap length e), refl)
      go (p ∷ q) e = simp (run_once, e) (omega (arith, ap length e), refl)

  submit-queue :
      (b : BackgroundPublisher P) (p : P)
      → length b.queue ≤ b.maxsize
      → (length (submit b p).0.queue ≤ b.maxsize) × ((submit b p).0.maxsize ≡ b.maxsize)
  unfolding submit
  submit-queue b p h = elim (Bool-cases (ltb (length b.queue) b.maxsize)) [
    | inl e ↦ simp e (grind (arith, tests, length-append b.queue (p ∷ [])), refl)
    | inr e ↦ simp e (h, refl)
  ]

  -- However submissions and the worker's turns follow each other, the queue never holds more than
  -- its size, and a submission is accepted exactly when it holds fewer.
  pub queue_bound :
      (max_queue_size log_every : ℕ) (spill_store : Option DiskSpillStore)
      → {b : BackgroundPublisher P} → Reachable json publish max_queue_size log_every spill_store b
      → (length b.queue ≤ max 1 max_queue_size)
        × ((p : P) → (submit b p).1 ≡ ltb (length b.queue) (max 1 max_queue_size))
  unfolding submit
  queue_bound n k s r = ((sized r).0, λ p. answered _ p ((sized r).1))
    where
      sized :
          {b : BackgroundPublisher P}
          → Reachable json publish n k s b
          → (length b.queue ≤ max 1 n) × (b.maxsize ≡ max 1 n)
      sized Reachable.start = unfold init in (omega arith, refl)
      sized (Reachable.submitted {b} r p) =
          let ih = sized r in
          let step = submit-queue b p (omega (arith, ih.0, ih.1)) in
          (omega (arith, step.0, ih.1), step.1 ∙ ih.1)
      sized (Reachable.worked {b} r w) =
          let ih = sized r in
          let step = run_once-queue w b in (omega (arith, step.0, ih.0), step.1 ∙ ih.1)

      answered :
          (b : BackgroundPublisher P) (p : P)
          → b.maxsize ≡ max 1 n
          → (submit b p).1 ≡ ltb (length b.queue) (max 1 n)
      answered b p e = elim (Bool-cases (ltb (length b.queue) b.maxsize)) [
        | inl t ↦ rw t (sym (ap (ltb (length b.queue)) (sym e) ∙ t))
        | inr t ↦ rw t (sym (ap (ltb (length b.queue)) (sym e) ∙ t))
      ]
