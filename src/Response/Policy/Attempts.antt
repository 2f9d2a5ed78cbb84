-- ===== src/Response/Policy/Attempts.antt =====
-- `record_bruteforce_attempt` of response_engine/policy.py against the attempts seen so far.
use smart_ids.Base.{
  nat_eq, string_eq, pair_eq, ◌==◌, beq_refl, ℕ, ◌-◌, ◌≤◌, ◌≡◌, refl, ◌∙◌, Bool, true, false, ◌&&◌,
  Option, none, some, List, [], ◌∷◌, ◌++◌, String, length, leb, if◌then◌else◌, arith, filter,
  Bool-cases, inl, inr,
}
use smart_ids.Dict.{Dict, contains, get_or}
use smart_ids.Packet.{Time}
use smart_ids.Window.{slide_at}
use smart_ids.Window.Laws.{is_recent, IsWindow-nil, slide-eq-filter}
use smart_ids.Window.Tables.{IsTable, slide_at-IsTable, bucket-slide_at, IsTable-later}
use smart_ids.Response.Policy.{
  ResponsePolicy, AttemptKey, init, own_time, record_bruteforce_attempt,
}

-- A connection attempt, as the arguments of the method.
pub record Attempt : Type 0 where
  pub src_ip : String
  pub dst_ip : String
  pub dst_port : Option ℕ
  pub timestamp : Time

abbrev pub after : ResponsePolicy → Attempt → ResponsePolicy × Bool
after p a = record_bruteforce_attempt p a.src_ip a.dst_ip a.dst_port a.timestamp

abbrev pub key_at : Attempt → ℕ → AttemptKey
key_at a port = (a.src_ip, (a.dst_ip, port))

-- The times at which the service with this key was tried.
abbrev pub is_for : List ℕ → AttemptKey → Attempt → Bool
is_for ports key a = elim a.dst_port [
  | none ↦ false
  | some port ↦ contains port ports && (key_at a port == key)
]

unfoldable pub tries : List ℕ → List Attempt → AttemptKey → List Time
tries ports [] key = []
tries ports (a ∷ as') key =
    let rest = tries ports as' key in if is_for ports key a then a.timestamp ∷ rest else rest

tries-snoc :
    (ports : List ℕ) (as' : List Attempt) (a : Attempt) (key : AttemptKey)
    → tries ports (as' ++ a ∷ []) key ≡ (
        if is_for ports key a then tries ports as' key ++ a.timestamp ∷ [] else tries ports as' key)
unfolding tries
tries-snoc ports [] a key = refl
tries-snoc ports (b ∷ as') a key = ground (arith, tries-snoc ports as' a key)

-- A policy that has seen the attempts `as'`, in the order of their times, the last at `now`.
pub data Run (window : Time) (threshold : ℕ) : ResponsePolicy → List Attempt → Time → Type 0 where
  start : Run window threshold (init window threshold) [] 0
  next :
      {p : ResponsePolicy} {as' : List Attempt} {now : Time}
      → Run window threshold p as' now
      → (a : Attempt) → now ≤ a.timestamp
      → Run window threshold (after p a).0 (as' ++ a ∷ []) a.timestamp

abbrev pub service_ports : List ℕ
service_ports = 21 ∷ 22 ∷ 23 ∷ 25 ∷ 110 ∷ 143 ∷ 3389 ∷ []

record Reached (window : Time) (threshold : ℕ) (p : ResponsePolicy) (as' : List Attempt)
    (now : Time) : Type 0 where
  table : IsTable own_time window now p.attempts (tries service_ports as')
  same_window : p.bruteforce_window ≡ window
  same_threshold : p.bruteforce_attempt_threshold ≡ threshold
  same_ports : p.bruteforce_service_ports ≡ service_ports

module _ {window : Time} {threshold : ℕ} {p : ResponsePolicy} {as' : List Attempt} {now : Time}
    (r : Reached window threshold p as' now) (a : Attempt) (h : now ≤ a.timestamp) where
  ignored :
      ((key : AttemptKey) → is_for service_ports key a ≡ false)
      → Reached window threshold p (as' ++ a ∷ []) a.timestamp
  ignored no_key = record {
    table = λ key.
        rw (tries-snoc, no_key key)
          (IsTable-later own_time window now p.attempts (tries service_ports as') r.table h key);
    same_window = r.same_window;
    same_threshold = r.same_threshold;
    same_ports = r.same_ports;
  }

  counted :
      (port : ℕ)
      → a.dst_port ≡ some port
      → contains port service_ports ≡ true
      → IsTable own_time window a.timestamp
          (slide_at own_time window (key_at a port) a.timestamp p.attempts)
          (tries service_ports (as' ++ a ∷ []))
  counted port e service =
      slide_at-IsTable own_time window now p.attempts (tries service_ports as') r.table
        (key_at a port) a.timestamp (tries service_ports (as' ++ a ∷ [])) h
        (λ key. tries-snoc service_ports as' a key ∙ ground (arith, e, service))

-- The method on each of its branches.
abbrev hits : ResponsePolicy → Attempt → ℕ → Dict AttemptKey (List Time)
hits p a port = slide_at own_time p.bruteforce_window (key_at a port) a.timestamp p.attempts

after-cases :
    (p : ResponsePolicy) (a : Attempt) (o : Option ℕ)
    → a.dst_port ≡ o
    → after p a ≡ elim o [
      | none ↦ (p, false)
      | some port ↦
          if contains port p.bruteforce_service_ports
          then (
            record p { attempts = hits p a port },
            leb p.bruteforce_attempt_threshold (length (get_or (hits p a port) (key_at a port) [])),
          )
          else (p, false)
    ]
unfolding record_bruteforce_attempt
after-cases p a none e = rw (e, record_bruteforce_attempt)
after-cases p a (some port) e = rw (e, record_bruteforce_attempt)

-- How many of the attempts in the list, in the window up to `a`, tried this port as `a` does.
abbrev pub recent_tries : Time → List Attempt → Attempt → ℕ → ℕ
recent_tries window as' a port =
    length
      (filter (is_recent own_time (a.timestamp - window)) (tries service_ports as' (key_at a port)))

-- What the method should answer.
abbrev pub suspected : Time → ℕ → List Attempt → Attempt → Bool
suspected window threshold as' a = elim a.dst_port [
  | none ↦ false
  | some port ↦
      contains port service_ports && leb threshold (recent_tries window (as' ++ a ∷ []) a port)
]

module _ {window : Time} {threshold : ℕ} where
  after-Reached :
      {p : ResponsePolicy} {as' : List Attempt} {now : Time}
      → Reached window threshold p as' now
      → (a : Attempt) → now ≤ a.timestamp
      → (o : Option ℕ) → a.dst_port ≡ o
      → Reached window threshold (after p a).0 (as' ++ a ∷ []) a.timestamp
  after-Reached {p} r a h none e = rw (after-cases p a none e) (ignored r a h (λ key. rw e))
  after-Reached {p} r a h (some port) e = elim (Bool-cases (contains port service_ports)) [
    | inl service ↦
        let here : contains port p.bruteforce_service_ports ≡ true = rw r.same_ports service in
        rw (after-cases p a (some port) e, here)
          (record {
            table = rw r.same_window (counted r a h port e service);
            same_window = r.same_window;
            same_threshold = r.same_threshold;
            same_ports = r.same_ports;
          })
    | inr other ↦
        let here : contains port p.bruteforce_service_ports ≡ false = rw r.same_ports other in
        rw (after-cases p a (some port) e, here) (ignored r a h (λ key. rw (e, other)))
  ]

  Run-Reached :
      {p : ResponsePolicy} {as' : List Attempt} {now : Time}
      → Run window threshold p as' now
      → Reached window threshold p as' now
  unfolding init tries get_or
  Run-Reached start = record {
    table = λ key. IsWindow-nil own_time window;
    same_window = refl;
    same_threshold = refl;
    same_ports = refl;
  }
  Run-Reached (next run a h) = after-Reached (Run-Reached run) a h a.dst_port refl

  answer :
      {p : ResponsePolicy} {as' : List Attempt} {now : Time}
      → Reached window threshold p as' now
      → (a : Attempt) → now ≤ a.timestamp
      → (o : Option ℕ) → a.dst_port ≡ o
      → (after p a).1 ≡ suspected window threshold as' a
  answer {p} r a h none e = rw (after-cases p a none e) (ground (arith, e))
  answer {p} {as'} {now} r a h (some port) e =
      let key : AttemptKey = key_at a port in
      let slid = bucket-slide_at own_time p.bruteforce_window key key a.timestamp p.attempts in
      let exact = slide-eq-filter own_time (r.table key) a.timestamp h in
      rw (after-cases p a (some port) e) (
        ground (
          arith,
          slid,
          exact,
          beq_refl key,
          tries-snoc service_ports as' a key,
          e,
          r.same_window,
          r.same_threshold,
          r.same_ports,
        ))

  -- The brute-force rule says yes exactly when the destination port is one of the seven service
  -- ports and this source has tried this port of this host at least `threshold` times in the
  -- window up to now, the attempt at hand included, in attempts that come in the order of time.
  pub bruteforce_exact :
      {p : ResponsePolicy} {as' : List Attempt} {now : Time}
      → Run window threshold p as' now
      → (a : Attempt) → now ≤ a.timestamp
      → (after p a).1 ≡ suspected window threshold as' a
  bruteforce_exact run a h = answer (Run-Reached run) a h a.dst_port refl
