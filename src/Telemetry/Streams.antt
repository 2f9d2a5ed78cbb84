-- ===== src/Telemetry/Streams.antt =====
-- What a snapshot tells, against everything that was recorded.
use smart_ids.Base.{
  ℕ, ◌+◌, ◌-◌, ◌≤◌, ◌<◌, ◌≡◌, refl, ap, sym, ◌∙◌, Bool, true, false, List, [], ◌∷◌, ◌++◌, length,
  filter, ltb, if◌then◌else◌, arith, length-append,
}
use smart_ids.Packet.{Time}
use smart_ids.Window.{trim}
use smart_ids.Window.Laws.{
  is_recent, IsWindow, IsWindow-later, IsWindow-snoc, trim-IsWindow, trim-eq-filter,
}
use smart_ids.Telemetry.{trim_times}

abbrev pub own_time : Time → Time
own_time t = t

-- The times that are within the window at `now`, the moment `now - window` not included.
abbrev pub within_window : Time → Time → Time → Bool
within_window window now t = ltb now (t + window)

trim_times-trim :
    (window now : Time) (ts : List Time)
    → 0 < window
    → trim_times window now ts ≡ trim own_time (now - (window - 1)) ts
unfolding trim_times trim
trim_times-trim window now [] h = refl
trim_times-trim window now (t ∷ ts) h = ground (arith, trim_times-trim window now ts h)

recent-within :
    (window now : Time) (ts : List Time)
    → 0 < window
    → filter (is_recent own_time (now - (window - 1))) ts ≡ filter (within_window window now) ts
recent-within window now [] h = refl
recent-within window now (t ∷ ts) h = ground (arith, recent-within window now ts h)

-- What the engine reports to the collector.
pub data Event : Type 0 where
  received processed dropped secondary : Event
  predicted : Time → Event

abbrev pub is_received : Event → Bool
is_received received = true
is_received _ = false

abbrev pub is_dropped : Event → Bool
is_dropped dropped = true
is_dropped _ = false

abbrev pub is_secondary : Event → Bool
is_secondary secondary = true
is_secondary _ = false

abbrev pub is_predicted : Event → Bool
is_predicted (predicted duration) = true
is_predicted _ = false

abbrev pub is_processed : Event → Bool
is_processed processed = true
is_processed _ = false

-- When an event of this kind was reported.
unfoldable pub times_of : (Event → Bool) → List (Event × Time) → List Time
times_of p [] = []
times_of p ((e, t) ∷ events) = let others = times_of p events in if p e then t ∷ others else others

pub times_of-hit :
    (p : Event → Bool) (events : List (Event × Time)) (e : Event) (t : Time)
    → p e ≡ true
    → times_of p (events ++ (e, t) ∷ []) ≡ times_of p events ++ t ∷ []
unfolding times_of
times_of-hit p [] e t h = rw h refl
times_of-hit p ((f, u) ∷ events) e t h = ground (arith, times_of-hit p events e t h)

pub times_of-miss :
    (p : Event → Bool) (events : List (Event × Time)) (e : Event) (t : Time)
    → p e ≡ false
    → times_of p (events ++ (e, t) ∷ []) ≡ times_of p events
unfolding times_of
times_of-miss p [] e t h = rw h refl
times_of-miss p ((f, u) ∷ events) e t h = ground (arith, times_of-miss p events e t h)

-- A counter and a deque that follow the events of one kind.
pub record IsStream (p : Event → Bool) (window now : Time) (total : ℕ) (bucket : List Time)
    (events : List (Event × Time)) : Type 0 where
  pub counted : total ≡ length (times_of p events)
  pub tracked : IsWindow own_time (window - 1) now bucket (times_of p events)

module _ (p : Event → Bool) (window : Time) (positive : 0 < window) {now : Time} {total : ℕ}
    {bucket : List Time} {events : List (Event × Time)} where
  pub trim-IsStream :
      (t : Time)
      → IsStream p window now total bucket events
      → now ≤ t
      → IsStream p window t total (trim_times window t bucket) events
  trim-IsStream t s h = record {
    counted = s.counted;
    tracked =
        rw (trim_times-trim window t bucket positive)
          (trim-IsWindow own_time (IsWindow-later own_time s.tracked h));
  }

  pub hit-IsStream :
      (e : Event) (t : Time)
      → p e ≡ true
      → IsStream p window now total bucket events
      → now ≤ t
      → IsStream p window t
          (total + 1)
          (trim_times window t (bucket ++ t ∷ []))
          (events ++ (e, t) ∷ [])
  hit-IsStream e t is s h = record {
    counted = omega (
      arith,
      s.counted,
      ap length (times_of-hit p events e t is),
      length-append (times_of p events) (t ∷ []),
    );
    tracked =
        rw (trim_times-trim window t (bucket ++ t ∷ []) positive, times_of-hit p events e t is)
          (trim-IsWindow own_time (IsWindow-snoc own_time s.tracked t h));
  }

  pub miss-IsStream :
      (e : Event) (t : Time)
      → p e ≡ false
      → IsStream p window now total bucket events
      → now ≤ t
      → IsStream p window t total bucket (events ++ (e, t) ∷ [])
  miss-IsStream e t isnt s h = record {
    counted = s.counted ∙ sym (ap length (times_of-miss p events e t isnt));
    tracked = rw (times_of-miss p events e t isnt) (IsWindow-later own_time s.tracked h);
  }

  -- What a snapshot at `t` tells of such a stream.
  pub stream-report :
      (t : Time)
      → IsStream p window now total bucket events
      → now ≤ t
      → length (trim_times window t bucket)
        ≡ length (filter (within_window window t) (times_of p events))
  stream-report t s h =
      let w = IsWindow-later own_time s.tracked h in
      ap length (
        trim_times-trim window t bucket positive
        ∙ trim-eq-filter own_time (t - (window - 1)) bucket w.sorted
        ∙ w.agrees (t - (window - 1)) (omega arith)
        ∙ recent-within window t (times_of p events) positive)
