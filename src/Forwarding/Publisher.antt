-- ===== src/Forwarding/Publisher.antt =====
-- packet_capture/forwarding/background_publisher.py, with one worker. `publish` is a parameter: it
-- changes the world and tells whether it delivered; an exception counts as `false`.
pub mod Delivery
pub mod Progress
use smart_ids.Base.{
  nat_eq, ◌==◌, ℕ, suc, ◌+◌, ◌%◌, Bool, true, false, ◌&&◌, ◌||◌, not, Option, none, some, List, [],
  ◌∷◌, ◌++◌, length, max, ltb, if◌then◌else◌,
}
use smart_ids.Forwarding.Spill.{
  Json, DiskSpillStore, append_payload, peek_batch, discard_batch, spill_is_empty, spill_count,
}

abbrev pub spill_drain_batch_size : ℕ
spill_drain_batch_size = 50

pub record BackgroundPublisher (P : Type 0) : Type 0 where
  pub queue : List P
  pub maxsize : ℕ
  pub drop_log_every : ℕ
  pub dropped : ℕ
  pub spill_store : Option DiskSpillStore

module _ {P : Type 0} where
  unfoldable pub init : ℕ → ℕ → Option DiskSpillStore → BackgroundPublisher P
  init max_queue_size drop_log_every spill_store = record {
    queue = [];
    maxsize = max 1 max_queue_size;
    drop_log_every = max 1 drop_log_every;
    dropped = 0;
    spill_store = spill_store;
  }

  -- The publisher, the answer, and the total that is logged.
  unfoldable pub submit : BackgroundPublisher P → P → BackgroundPublisher P × Bool × Option ℕ
  submit b payload =
      if ltb (length b.queue) b.maxsize
      then (record b { queue = b.queue ++ payload ∷ [] }, true, none)
      else let dropped = b.dropped + 1 in
        (
          record b { dropped = dropped },
          false,
          (if (dropped == 1) || ((dropped % b.drop_log_every) == 0) then some dropped else none),
        )

  unfoldable pub spill_backlog_count : BackgroundPublisher P → ℕ
  unfolding spill_count
  spill_backlog_count b = elim b.spill_store [ none ↦ 0 | some store ↦ spill_count store ]

module _ {W P : Type 0} (publish : W → P → W × Bool) where
  -- The loop of `_drain_spill_backlog`: the number of items that were delivered.
  unfoldable pub replay : W → List P → W × ℕ
  replay w [] = (w, 0)
  replay w (item ∷ items) =
      let answer = publish w item in
      let others = replay answer.0 items in
      if answer.1 then (others.0, suc others.1) else (answer.0, 0)

module _ {W P : Type 0} (json : Json P) (publish : W → P → W × Bool) where
  unfoldable pub drain_spill_backlog : W → DiskSpillStore → W × DiskSpillStore
  unfolding replay peek_batch discard_batch
  drain_spill_backlog w store =
      let replayed = replay publish w (peek_batch json store spill_drain_batch_size) in
      (replayed.0, (if ltb 0 replayed.1 then discard_batch json store replayed.1 else store))

  -- What `_run` does with the payload it took from the queue.
  unfoldable pub dispatch : W → Option DiskSpillStore → P → W × Option DiskSpillStore
  unfolding append_payload spill_is_empty drain_spill_backlog
  dispatch w spill_store payload =
      let answer = publish w payload in
      elim spill_store [
        | none ↦ (answer.0, none)
        | some store ↦
            if not answer.1
            then (answer.0, some (append_payload json store payload))
            else if spill_is_empty store
            then (answer.0, some store)
            else let drained = drain_spill_backlog answer.0 store in (drained.0, some drained.1)
      ]

  -- One turn of the loop of `_run`, which waits while the queue is empty.
  unfoldable pub run_once : W → BackgroundPublisher P → W × BackgroundPublisher P
  unfolding dispatch
  run_once w b = elim b.queue [
    | [] ↦ (w, b)
    | payload ∷ queue ↦
        let done = dispatch w b.spill_store payload in
        (done.0, record b { queue = queue; spill_store = done.1 })
  ]
