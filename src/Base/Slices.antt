-- ===== src/Base/Slices.antt =====
-- Python's slices from the end, `xs[-n:]`.
use Prim.Native.Nat.{ℕ, zero, suc, ◌-◌, ◌≤◌, ◌<◌, min}
use mathlib.Core.Path.{◌≡◌, refl}
use mathlib.Core.List.{List}
use native.Mathlib.Omega.{arith}
use smart_ids.Base.Lists.{length, drop, All, length-drop, All-drop}

module _ {ℓ} {A : Type ℓ} where
  -- `xs[-0:]` is the whole of `xs`.
  unfoldable pub last_n : ℕ → List A → List A
  last_n zero xs = xs
  last_n (suc n) xs = drop (length xs - suc n) xs

  pub length-last_n : (n : ℕ) (xs : List A) → 0 < n → length (last_n n xs) ≡ min n (length xs)
  unfolding last_n
  length-last_n zero xs h = absurd (omega arith)
  length-last_n (suc n) xs h = omega (arith, length-drop (length xs - suc n) xs)

  pub last_n_short : (n : ℕ) (xs : List A) → length xs ≤ n → last_n n xs ≡ xs
  unfolding last_n
  last_n_short zero xs h = refl
  last_n_short (suc n) xs h =
      let e : length xs - suc n ≡ 0 = omega arith in go (length xs - suc n) e
    where
      go : (k : ℕ) → k ≡ 0 → drop k xs ≡ xs
      go zero e = refl
      go (suc k) e = absurd (omega arith)

  pub All-last_n {κ} : (P : A → Type κ) (n : ℕ) (xs : List A) → All P xs → All P (last_n n xs)
  unfolding last_n
  All-last_n P zero xs h = h
  All-last_n P (suc n) xs h = All-drop P (length xs - suc n) xs h
