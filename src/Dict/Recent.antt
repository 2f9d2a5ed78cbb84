-- ===== src/Dict/Recent.antt =====
-- Distinct elements and membership in the newest part of a list, `xs[-n:]`.
use smart_ids.Base.{
  Eq, beq_refl, ℕ, zero, suc, ◌-◌, ◌≤◌, ◌<◌, ◌≡◌, refl, true, false, List, [], ◌∷◌, ◌++◌, length,
  drop, arith, last_n, length-append,
}
use smart_ids.Dict.Defs.{contains, IsDistinct}
use smart_ids.Dict.Order.{contains-append}

module _ {ℓ} {K : Type ℓ} ⦃e : Eq K⦄ where
  pub contains-drop :
      (j : K) (n : ℕ) (xs : List K) → contains j (drop n xs) ≡ true → contains j xs ≡ true
  unfolding contains
  contains-drop j zero xs h = h
  contains-drop j (suc n) [] h = h
  contains-drop j (suc n) (x ∷ xs) h = ground (arith, contains-drop j n xs h)

  pub drop-IsDistinct : (n : ℕ) (xs : List K) → IsDistinct xs → IsDistinct (drop n xs)
  drop-IsDistinct zero xs h = h
  drop-IsDistinct (suc n) [] h = tt
  drop-IsDistinct (suc n) (x ∷ xs) h = drop-IsDistinct n xs h.1

  pub snoc-IsDistinct :
      (xs : List K) (x : K) → IsDistinct xs → contains x xs ≡ false → IsDistinct (xs ++ x ∷ [])
  unfolding contains
  snoc-IsDistinct [] x h m = (refl, tt)
  snoc-IsDistinct (y ∷ ys) x h m = (
    ground (arith, contains-append y ys (x ∷ []), e.beq_iff x y, e.beq_iff y x),
    snoc-IsDistinct ys x h.1 (ground arith),
  )

  drop-snoc :
      (n : ℕ) (xs : List K) (x : K) → n ≤ length xs → contains x (drop n (xs ++ x ∷ [])) ≡ true
  unfolding contains
  drop-snoc zero xs x h = ground (arith, contains-append x xs (x ∷ []), beq_refl x)
  drop-snoc (suc n) [] x h = absurd (omega arith)
  drop-snoc (suc n) (y ∷ ys) x h = drop-snoc n ys x (omega arith)

  -- The newest element is kept, unless nothing is.
  pub contains-last_n-snoc :
      (n : ℕ) (xs : List K) (x : K) → 0 < n → contains x (last_n n (xs ++ x ∷ [])) ≡ true
  unfolding last_n
  contains-last_n-snoc zero xs x h = absurd (omega arith)
  contains-last_n-snoc (suc n) xs x h =
      drop-snoc (length (xs ++ x ∷ []) - suc n) xs x (omega (arith, length-append xs (x ∷ [])))

  pub last_n-IsDistinct : (n : ℕ) (xs : List K) → IsDistinct xs → IsDistinct (last_n n xs)
  unfolding last_n
  last_n-IsDistinct zero xs h = h
  last_n-IsDistinct (suc n) xs h = drop-IsDistinct (length xs - suc n) xs h

  pub middle_fresh :
      (xs : List K) (x : K) (ys : List K) → IsDistinct (xs ++ x ∷ ys) → contains x xs ≡ false
  unfolding contains
  middle_fresh [] x ys d = refl
  middle_fresh (y ∷ zs) x ys d = ground (
    arith,
    middle_fresh zs x ys d.1,
    d.0,
    contains-append y zs (x ∷ ys),
    e.beq_iff x y,
    e.beq_iff y x,
  )
