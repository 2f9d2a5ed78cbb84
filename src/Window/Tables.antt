-- ===== src/Window/Tables.antt =====
-- A table of buckets, each of which is a window on the history of its key.
use smart_ids.Base.{
  Eq, ◌==◌, beq_refl, ◌-◌, ◌≤◌, ◌≡◌, refl, true, List, [], ◌∷◌, ◌++◌, All, is_empty, if◌then◌else◌,
  Bool-cases, Option-cases, inl, inr, arith,
}
use smart_ids.Dict.{Dict, get, get_or, pop, get_or-put, get_or-pop}
use smart_ids.Packet.{Time}
use smart_ids.Window.{trim, slide, slide_at, trim_at}
use smart_ids.Window.Laws.{
  IsWindow, IsWindow-later, trim-IsWindow, slide-IsWindow, slide-eq-filter, All-trim, filter-fresh,
}

module _ {ℓ κ} {A : Type ℓ} (time : A → Time) {K : Type κ} ⦃e : Eq K⦄ where
  pub bucket-slide_at :
      (window : Time) (k j : K) (x : A) (table : Dict K (List A))
      → get_or (slide_at time window k x table) j []
        ≡ (if k == j then slide time window x (get_or table k []) else get_or table j [])
  unfolding slide_at
  bucket-slide_at window k j x table = get_or-put table k j _ []

  pub bucket-trim_at :
      (cutoff : Time) (k j : K) (table : Dict K (List A))
      → get_or (trim_at time cutoff k table) j []
        ≡ (if k == j then trim time cutoff (get_or table j []) else get_or table j [])
  unfolding trim_at get_or trim
  bucket-trim_at cutoff k j table = elim (Option-cases (get table k)) [
    | inl missing ↦ ground (arith, e.beq_iff k j)
    | inr (bucket, found) ↦
        ground (arith, e.beq_iff k j, get_or-put table k j (trim time cutoff bucket) [])
  ]

  abbrev pub IsTable : Time → Time → Dict K (List A) → (K → List A) → Type (ℓ ⊔ κ)
  IsTable window now table history =
      (k : K) → IsWindow time window now (get_or table k []) (history k)

  module _ (window now : Time) (table : Dict K (List A)) (history : K → List A)
      (v : IsTable window now table history) where
    pub slide_at-IsTable :
        (k : K) (x : A) (longer : K → List A)
        → now ≤ time x
        → ((j : K) → longer j ≡ (if k == j then history j ++ x ∷ [] else history j))
        → IsTable window (time x) (slide_at time window k x table) longer
    slide_at-IsTable k x longer h more j =
        rw (bucket-slide_at window k j x table, more j)
          (elim (Bool-cases (k == j)) [
            | inl same ↦ rw same (subst_key k j ((e.beq_iff k j).0 same) x h)
            | inr other ↦ rw other (IsWindow-later time (v j) h)
          ])
      where
        subst_key :
            (k j : K)
            → k ≡ j
            → (x : A) → now ≤ time x
            → IsWindow time window
                (time x)
                (slide time window x (get_or table k []))
                (history j ++ x ∷ [])
        subst_key k j p x h = rw (← p) (slide-IsWindow time (v k) x h)

    pub trim_at-IsTable : (k : K) → IsTable window now (trim_at time (now - window) k table) history
    trim_at-IsTable k j = rw (bucket-trim_at (now - window) k j table) (elim (Bool-cases (k == j)) [
      | inl same ↦ rw same (trim-IsWindow time (v j))
      | inr other ↦ rw other (v j)
    ])

    pub pop-IsTable :
        (k : K) → is_empty (get_or table k []) ≡ true → IsTable window now (pop table k) history
    pop-IsTable k h j = rw (get_or-pop table k j []) (elim (Bool-cases (k == j)) [
      | inl same ↦ rw (same, ← nothing (get_or table j []) (rw (← (e.beq_iff k j).0 same) h)) (v j)
      | inr other ↦ rw other (v j)
    ])
      where
        nothing : (xs : List A) → is_empty xs ≡ true → xs ≡ []
        nothing [] h = refl
        nothing (x ∷ xs) h = ground arith

    pub IsTable-later : {later : Time} → now ≤ later → IsTable window later table history
    IsTable-later h k = IsWindow-later time (v k) h

  -- Trimming the bucket of any key keeps what holds of every entry of a bucket.
  pub All-trim_at {μ} :
      (P : A → Type μ) (cutoff : Time) (k j : K) (table : Dict K (List A))
      → All P (get_or table j [])
      → All P (get_or (trim_at time cutoff k table) j [])
  All-trim_at P cutoff k j table h =
      rw (bucket-trim_at cutoff k j table) (elim (Bool-cases (k == j)) [
        | inl same ↦ rw same (All-trim time P cutoff (get_or table j []) h)
        | inr other ↦ rw other h
      ])

  pub All-pop {μ} :
      (P : A → Type μ) (k j : K) (table : Dict K (List A))
      → All P (get_or table j [])
      → All P (get_or (pop table k) j [])
  All-pop P k j table h =
      rw (get_or-pop table k j [])
        (elim (Bool-cases (k == j)) [ inl same ↦ rw same tt | inr other ↦ rw other h ])

  -- Right after an entry the bucket of its key has nothing too old.
  pub slide_at-fresh :
      (window now : Time) (table : Dict K (List A)) (history : List A) (k : K) (x : A)
      → IsWindow time window now (get_or table k []) history
      → now ≤ time x
      → All (λ y. time x - window ≤ time y) (get_or (slide_at time window k x table) k [])
  slide_at-fresh window now table history k x v h =
      rw (bucket-slide_at window k k x table, beq_refl k, slide-eq-filter time v x h)
        (filter-fresh time (time x - window) (history ++ x ∷ []))
