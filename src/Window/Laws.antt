-- ===== src/Window/Laws.antt =====
-- A bucket that is fed in the order of time holds exactly the recent part of its history.
use smart_ids.Base.{
  ◌-◌, ◌≤◌, ◌≡◌, refl, ◌∙◌, sym, Bool, List, [], ◌∷◌, ◌++◌, All, All-append, All-imp, filter,
  filter-append, IsSortedBy, leb, le→leb, leb→le, ltb→le, arith, Bool-cases, inl, inr,
}
use smart_ids.Packet.{Time}
use smart_ids.Window.{is_before, trim, slide}

module _ {ℓ} {A : Type ℓ} (time : A → Time) where
  abbrev pub is_recent : Time → A → Bool
  is_recent cutoff x = leb cutoff (time x)

  filter-All : (c : Time) (xs : List A) → All (λ y. c ≤ time y) xs → filter (is_recent c) xs ≡ xs
  filter-All c [] h = refl
  filter-All c (x ∷ xs) h = ground (arith, filter-All c xs h.1, le→leb c (time x) h.0)

  -- On a bucket in the order of time, the loop removes exactly what is too old.
  pub trim-eq-filter :
      (c : Time) (xs : List A) → IsSortedBy time xs → trim time c xs ≡ filter (is_recent c) xs
  unfolding trim
  trim-eq-filter c [] h = refl
  trim-eq-filter c (x ∷ xs) h = elim (Bool-cases (is_before time c x)) [
    | inl old ↦ rw old (trim-eq-filter c xs h.1 ∙ ground arith)
    | inr new ↦ rw new (
        sym (
          filter-All c (x ∷ xs) (
            ltb→le _ _ new,
            All-imp (λ y. time x ≤ time y) (λ y. c ≤ time y)
                (λ y p. omega (arith, ltb→le (time x) c new)) xs h.0,
          )))
  ]

  filter_twice :
      (c d : Time) (xs : List A)
      → c ≤ d
      → filter (is_recent d) (filter (is_recent c) xs) ≡ filter (is_recent d) xs
  filter_twice c d [] h = refl
  filter_twice c d (x ∷ xs) h = ground (arith, filter_twice c d xs h)

  All-filter {κ} : (P : A → Type κ) (p : A → Bool) (xs : List A) → All P xs → All P (filter p xs)
  All-filter P p [] h = tt
  All-filter P p (x ∷ xs) h = elim (Bool-cases (p x)) [
    | inl e ↦ rw e (h.0, All-filter P p xs h.1)
    | inr e ↦ rw e (All-filter P p xs h.1)
  ]

  filter-IsSortedBy :
      (p : A → Bool) (xs : List A) → IsSortedBy time xs → IsSortedBy time (filter p xs)
  filter-IsSortedBy p [] h = tt
  filter-IsSortedBy p (x ∷ xs) h = elim (Bool-cases (p x)) [
    | inl e ↦ rw e (All-filter (λ y. time x ≤ time y) p xs h.0, filter-IsSortedBy p xs h.1)
    | inr e ↦ rw e (filter-IsSortedBy p xs h.1)
  ]

  snoc-IsSortedBy :
      (xs : List A) (x : A)
      → IsSortedBy time xs
      → All (λ y. time y ≤ time x) xs
      → IsSortedBy time (xs ++ x ∷ [])
  snoc-IsSortedBy [] x h b = (tt, tt)
  snoc-IsSortedBy (y ∷ ys) x h b =
      (All-append (λ z. time y ≤ time z) ys (x ∷ []) h.0 (b.0, tt), snoc-IsSortedBy ys x h.1 b.1)

  -- `bucket` answers every question about the last `window` of `history`, asked at `now` or later.
  pub record IsWindow (window now : Time) (bucket history : List A) : Type ℓ where
    pub sorted : IsSortedBy time bucket
    pub bounded : All (λ y. time y ≤ now) bucket
    pub agrees :
        (c : Time) → now - window ≤ c → filter (is_recent c) bucket ≡ filter (is_recent c) history

  pub IsWindow-nil : (window : Time) → IsWindow window 0 [] []
  IsWindow-nil window = record { sorted = tt; bounded = tt; agrees = λ c h. refl }

  module _ {window now : Time} {bucket history : List A}
      (v : IsWindow window now bucket history) where
    pub IsWindow-later : {later : Time} → now ≤ later → IsWindow window later bucket history
    IsWindow-later h = record {
      sorted = v.sorted;
      bounded = All-imp (λ y. time y ≤ now) (λ y. time y ≤ _) (λ y p. omega arith) bucket v.bounded;
      agrees = λ c k. v.agrees c (omega arith);
    }

    pub trim-IsWindow : IsWindow window now (trim time (now - window) bucket) history
    trim-IsWindow = rw (trim-eq-filter (now - window) bucket v.sorted) (record {
      sorted = filter-IsSortedBy (is_recent (now - window)) bucket v.sorted;
      bounded = All-filter (λ y. time y ≤ now) (is_recent (now - window)) bucket v.bounded;
      agrees = λ c k. filter_twice (now - window) c bucket k ∙ v.agrees c k;
    })

    pub IsWindow-snoc :
        (x : A) → now ≤ time x → IsWindow window (time x) (bucket ++ x ∷ []) (history ++ x ∷ [])
    IsWindow-snoc x h =
        let below : All (λ y. time y ≤ time x) bucket =
          All-imp (λ y. time y ≤ now) (λ y. time y ≤ time x) (λ y p. omega arith) bucket
            v.bounded in
        record {
          sorted = snoc-IsSortedBy bucket x v.sorted below;
          bounded = All-append (λ y. time y ≤ time x) bucket (x ∷ []) below (omega arith, tt);
          agrees = λ c k. simp (filter-append, v.agrees c (omega arith));
        }

  module _ {window now : Time} {bucket history : List A}
      (v : IsWindow window now bucket history) where
    pub slide-IsWindow :
        (x : A)
        → now ≤ time x
        → IsWindow window (time x) (slide time window x bucket) (history ++ x ∷ [])
    unfolding slide
    slide-IsWindow x h = trim-IsWindow (IsWindow-snoc v x h)

    -- Right after an entry the bucket is the recent part of the history, in order.
    pub slide-eq-filter :
        (x : A)
        → now ≤ time x
        → slide time window x bucket ≡ filter (is_recent (time x - window)) (history ++ x ∷ [])
    unfolding slide
    slide-eq-filter x h =
        let w = IsWindow-snoc v x h in
        trim-eq-filter (time x - window) (bucket ++ x ∷ []) w.sorted
        ∙ w.agrees (time x - window) (omega arith)

  module _ {window now : Time} {bucket history : List A}
      (v : IsWindow window now bucket history) where
    -- A bucket with nothing too old is the recent part of the history.
    pub fresh-eq-filter :
        All (λ y. now - window ≤ time y) bucket → bucket ≡ filter (is_recent (now - window)) history
    fresh-eq-filter h =
        sym (filter-All (now - window) bucket h) ∙ v.agrees (now - window) (omega arith)

  pub filter-fresh : (c : Time) (xs : List A) → All (λ y. c ≤ time y) (filter (is_recent c) xs)
  filter-fresh c [] = tt
  filter-fresh c (x ∷ xs) = elim (Bool-cases (is_recent c x)) [
    | inl e ↦ rw e (leb→le c (time x) e, filter-fresh c xs)
    | inr e ↦ rw e (filter-fresh c xs)
  ]

  pub All-trim {κ} : (P : A → Type κ) (c : Time) (xs : List A) → All P xs → All P (trim time c xs)
  unfolding trim
  All-trim P c [] h = tt
  All-trim P c (x ∷ xs) h = elim (Bool-cases (is_before time c x)) [
    | inl e ↦ rw e (All-trim P c xs h.1)
    | inr e ↦ rw e h
  ]
