-- ===== src/Tests/Forwarding.antt =====
-- The spill store and the publisher, with texts of digits for payloads.
use smart_ids.Base.{
  ℕ, ◌≤◌, ◌≡◌, ◌-◌, ◌*◌, refl, Bool, true, false, ◌++◌, Option, none, some, List, [], ◌∷◌, String,
  take, ltb, max, length, arith, zero, suc, string_eq, ◌==◌, if◌then◌else◌,
}
use smart_ids.Text.{strip, is_blank}
use smart_ids.Forwarding.Spill.{
  Json, DiskSpillStore, append_payload, peek_batch, discard_batch, write_lines,
}
use smart_ids.Forwarding.Spill.Queue.{payloads}
use smart_ids.Forwarding.Spill.Refinement.{
  IsJson, Holds, appended, append_payload-Holds, discard_batch-Holds, peek_batch-Holds,
}
use smart_ids.Forwarding.Publisher.{
  spill_drain_batch_size, drain_spill_backlog, BackgroundPublisher, submit, init,
}
use smart_ids.Forwarding.Publisher.Progress.{Waiting, sent, left_over, turns, turns-deliver}
use smart_ids.Forwarding.Publisher.Delivery.{
  Delivered, Ended, Reachable, drain_spill_backlog_exact, queue_bound,
}

-- A payload is one of two alerts.
abbrev texts : Json Bool
texts = record { dumps = dumps; loads = loads }
  where
    dumps : Bool → String
    dumps true = "{}"
    dumps false = "{\"a\":1}"

    loads : String → Option Bool
    loads s = if s == "{}" then some true else if s == "{\"a\":1}" then some false else none

texts-IsJson : IsJson texts
unfolding strip
texts-IsJson = record { stripped = stripped; filled = filled; loaded = loaded }
  where
    stripped : (payload : Bool) → strip (texts.dumps payload) ≡ texts.dumps payload
    stripped true = refl
    stripped false = refl

    filled : (payload : Bool) → is_blank (texts.dumps payload) ≡ false
    filled true = refl
    filled false = refl

    loaded : (payload : Bool) → texts.loads (texts.dumps payload) ≡ some payload
    loaded true = refl
    loaded false = refl

abbrev two_alerts : DiskSpillStore
two_alerts = record {
  max_entries = 2;
  entry_count = 2;
  file = write_lines ("{}" ∷ "{\"a\":1}" ∷ []);
}

two_alerts-Holds : Holds texts two_alerts (true ∷ false ∷ [])
two_alerts-Holds = record { positive = omega arith; counted = refl; written = refl }

append_payload-Holds_example :
    Holds texts (append_payload texts two_alerts true) (appended 2 (true ∷ false ∷ []) true)
append_payload-Holds_example =
    append_payload-Holds texts texts-IsJson two_alerts (true ∷ false ∷ []) true two_alerts-Holds

discard_batch-Holds_example : Holds texts (discard_batch texts two_alerts 1) (false ∷ [])
discard_batch-Holds_example =
    discard_batch-Holds texts texts-IsJson two_alerts (true ∷ false ∷ []) 1 two_alerts-Holds

-- A backend that takes as many payloads as it has room for.
abbrev backend : ℕ → Bool → ℕ × Bool
backend zero payload = (0, false)
backend (suc room) payload = (room, true)

drain_spill_backlog_exact_example :
    (done : List Bool) × Ended backend 1
      (take spill_drain_batch_size (payloads texts two_alerts))
      (drain_spill_backlog texts backend 1 two_alerts).0
      done
    × (payloads texts two_alerts
        ≡ done ++ payloads texts (drain_spill_backlog texts backend 1 two_alerts).1)
drain_spill_backlog_exact_example = drain_spill_backlog_exact texts backend 1 two_alerts

abbrev publisher : BackgroundPublisher Bool
publisher = (submit (init 1 25 none) true).0

queue_bound_example :
    (length publisher.queue ≤ max 1 1)
    × ((p : Bool) → (submit publisher p).1 ≡ ltb (length publisher.queue) (max 1 1))
queue_bound_example = queue_bound texts backend 1 25 none (Reachable.submitted Reachable.start true)

-- A backend that takes everything, and what it has taken.
abbrev archive : List Bool → Bool → List Bool × Bool
archive taken payload = (taken ++ payload ∷ [], true)

abbrev loaded_publisher : BackgroundPublisher Bool
loaded_publisher = record {
  queue = true ∷ false ∷ [];
  maxsize = 10;
  drop_log_every = 25;
  dropped = 0;
  spill_store = some two_alerts;
}

loaded_publisher-Waiting :
    Waiting texts archive loaded_publisher (true ∷ false ∷ []) (true ∷ false ∷ [])
loaded_publisher-Waiting = record {
  queued = refl;
  store = two_alerts;
  spilled = refl;
  holds = two_alerts-Holds;
}

turns-deliver_example :
    Delivered archive []
      (sent (true ∷ false ∷ []) (true ∷ false ∷ []))
      (turns texts archive 2 [] loaded_publisher).0
    × ((turns texts archive 2 [] loaded_publisher).1.queue ≡ [])
    × Waiting texts archive
        (turns texts archive 2 [] loaded_publisher).1
        []
        (left_over (true ∷ false ∷ []) (true ∷ false ∷ []))
    × (length (left_over (true ∷ false ∷ []) (true ∷ false ∷ [])) ≡ 2 - 2 * 50)
turns-deliver_example =
    turns-deliver texts archive (λ w p. refl) texts-IsJson (true ∷ false ∷ []) (true ∷ false ∷ [])
      [] loaded_publisher loaded_publisher-Waiting

peek_batch-Holds_example : peek_batch texts two_alerts 1 ≡ true ∷ []
peek_batch-Holds_example =
    peek_batch-Holds texts texts-IsJson two_alerts (true ∷ false ∷ []) 1 two_alerts-Holds
