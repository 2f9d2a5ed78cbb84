-- ===== src/Dict/Order.antt =====
-- Membership in slices and sorted lists, and counting distinct elements.
use smart_ids.Base.{
  Eq, ◌==◌, beq_refl, ℕ, zero, suc, ◌≤◌, ◌≡◌, refl, subst, true, ◌||◌, List, [], ◌∷◌, ◌++◌, length,
  take, drop, take-append-drop, arith, Bool-cases, inl, inr, All, insert_by, sort_by, IsSortedBy,
}
use smart_ids.Dict.Defs.{contains, discard, IsDistinct, union, add}
use smart_ids.Dict.Laws.{contains-discard}
use smart_ids.Dict.Keys.{length-discard-lt, add-IsDistinct}

module _ {ℓ} {K : Type ℓ} ⦃e : Eq K⦄ where
  pub contains-append :
      (j : K) (xs ys : List K) → contains j (xs ++ ys) ≡ (contains j xs || contains j ys)
  unfolding contains
  contains-append j [] ys = refl
  contains-append j (x ∷ xs) ys = ground (arith, contains-append j xs ys)

  pub contains-insert_by :
      (key : K → ℕ) (j x : K) (xs : List K)
      → contains j (insert_by key x xs) ≡ ((x == j) || contains j xs)
  unfolding contains insert_by
  contains-insert_by key j x [] = refl
  contains-insert_by key j x (y ∷ ys) = ground (arith, contains-insert_by key j x ys)

  pub contains-sort_by :
      (key : K → ℕ) (j : K) (xs : List K) → contains j (sort_by key xs) ≡ contains j xs
  unfolding contains sort_by
  contains-sort_by key j [] = refl
  contains-sort_by key j (x ∷ xs) =
      ground (arith, contains-sort_by key j xs, contains-insert_by key j x (sort_by key xs))

  pub contains-take-drop :
      (j : K) (n : ℕ) (xs : List K)
      → contains j xs ≡ (contains j (take n xs) || contains j (drop n xs))
  contains-take-drop j n xs =
      ground (arith, contains-append j (take n xs) (drop n xs), take-append-drop n xs)

  pub All-contains {κ} :
      (P : K → Type κ) (j : K) (xs : List K) → All P xs → contains j xs ≡ true → P j
  unfolding contains
  All-contains P j [] h m = absurd (ground arith)
  All-contains P j (x ∷ xs) h m = elim (Bool-cases (x == j)) [
    | inl here ↦ subst P ((e.beq_iff x j).0 here) h.0
    | inr there ↦ All-contains P j xs h.1 (ground arith)
  ]

  -- In a sorted list, what comes first has the smaller key.
  pub key-take-le-drop :
      (key : K → ℕ) (n : ℕ) (xs : List K) (a b : K)
      → IsSortedBy key xs
      → contains a (take n xs) ≡ true
      → contains b (drop n xs) ≡ true
      → key a ≤ key b
  unfolding contains
  key-take-le-drop key zero xs a b s ha hb = absurd (ground arith)
  key-take-le-drop key (suc n) [] a b s ha hb = absurd (ground arith)
  key-take-le-drop key (suc n) (x ∷ xs) a b s ha hb = elim (Bool-cases (x == a)) [
    | inl here ↦
        subst (λ z. key z ≤ key b) ((e.beq_iff x a).0 here)
          (All-contains (λ y. key x ≤ key y) b xs s.0 (ground (arith, contains-take-drop b n xs)))
    | inr there ↦ key-take-le-drop key n xs a b s.1 (ground arith) hb
  ]

  -- Distinct elements of a list are at most as many as the list is long.
  pub length-le_of_subset :
      (xs ys : List K)
      → IsDistinct xs
      → ((j : K) → contains j xs ≡ true → contains j ys ≡ true)
      → length xs ≤ length ys
  unfolding contains
  length-le_of_subset [] ys d h = omega arith
  length-le_of_subset (x ∷ xs) ys d h =
      let found : contains x ys ≡ true = h x (ground (arith, beq_refl x)) in
      let rest : length xs ≤ length (discard x ys) =
        length-le_of_subset xs (discard x ys) d.1 (λ j m.
          ground
            (arith, h j, contains-discard x j ys, e.beq_iff x j, d.0, m, subst_contains x j xs)) in
      omega (arith, length-discard-lt x ys found)
    where
      subst_contains : (x j : K) (xs : List K) → x ≡ j → contains x xs ≡ contains j xs
      subst_contains x j xs p = λ i. contains (p i) xs

  pub union-IsDistinct : (xs ys : List K) → IsDistinct xs → IsDistinct (union xs ys)
  unfolding union
  union-IsDistinct xs [] h = h
  union-IsDistinct xs (y ∷ ys) h = union-IsDistinct (add y xs) ys (add-IsDistinct y xs h)
