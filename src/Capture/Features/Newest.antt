-- ===== src/Capture/Features/Newest.antt =====
-- The feature store keeps the newest features, in their order.
use smart_ids.Base.{
  ℕ, zero, suc, ◌+◌, ◌-◌, ◌≤◌, ◌≡◌, refl, ap, sym, ◌∙◌, List, [], ◌∷◌, ◌++◌, length, drop,
  length-append, arith, append_assoc, append-nil,
}
use smart_ids.Capture.Features.{FeatureStore, empty_store, add_feature, get_all}

module _ {A : Type 0} where
  abbrev pub newest : ℕ → List A → List A
  newest n xs = drop (length xs - n) xs

  -- Cutting before or after the last one is added makes no difference.
  drop-snoc :
      (k n : ℕ) (xs : List A) (x : A)
      → k ≤ length xs
      → newest n (drop k xs ++ x ∷ []) ≡ drop ((length xs - k + 1) - n + k) (xs ++ x ∷ [])
  drop-snoc zero n xs x h =
      let e : length (xs ++ x ∷ []) - n ≡ (length xs - 0 + 1) - n + 0 =
        omega (arith, length-append xs (x ∷ [])) in
      ap (λ m. drop m (xs ++ x ∷ [])) e
  drop-snoc (suc k) n [] x h = absurd (omega (arith, h))
  drop-snoc (suc k) n (y ∷ xs) x h =
      let e : suc ((length xs - k + 1) - n + k) ≡ (suc (length xs) - suc k + 1) - n + suc k =
        omega arith in
      drop-snoc k n xs x (omega (arith, h)) ∙ ap (λ m. drop m (y ∷ xs ++ x ∷ [])) e

  newest-newest :
      (n : ℕ) (xs : List A) (x : A) → newest n (newest n xs ++ x ∷ []) ≡ newest n (xs ++ x ∷ [])
  newest-newest n xs x =
      let k = length xs - n in
      let e : (length xs - (length xs - n) + 1) - n + (length xs - n) ≡ length (xs ++ x ∷ []) - n =
        omega (arith, length-append xs (x ∷ [])) in
      drop-snoc k n xs x (omega arith) ∙ ap (λ m. drop m (xs ++ x ∷ [])) e

  abbrev pub add_all : FeatureStore A → List A → FeatureStore A
  add_all store [] = store
  add_all store (x ∷ xs) = add_all (add_feature store x) xs

  add_all-newest :
      (n : ℕ) (xs seen kept : List A)
      → kept ≡ newest n seen
      → (add_all (record { max_size = n; features = kept }) xs).features ≡ newest n (seen ++ xs)
  unfolding add_feature
  add_all-newest n [] seen kept e = e ∙ sym (ap (newest n) (append-nil seen))
  add_all-newest n (x ∷ xs) seen kept e =
      add_all-newest n xs (seen ++ x ∷ []) (newest n (kept ++ x ∷ []))
        (ap (λ ys. newest n (ys ++ x ∷ [])) e ∙ newest-newest n seen x)
      ∙ ap (newest n) (append_assoc seen (x ∷ []) xs)

  -- After any number of additions to an empty store it holds the newest `max_size` features, all
  -- of them if there are no more, in the order in which they came.
  pub get_all-add_all : (n : ℕ) (xs : List A) → get_all (add_all (empty_store n) xs) ≡ newest n xs
  unfolding get_all empty_store
  get_all-add_all n xs = add_all-newest n xs [] [] (nothing (0 - n))
    where
      nothing : (k : ℕ) → [] ≡ drop {A = A} k []
      nothing zero = refl
      nothing (suc k) = refl
