-- ===== src/Dict/Keys.antt =====
-- The keys of a dictionary: which they are, that they stay distinct, and how many there are.
use smart_ids.Base.{Eq, suc, ◌≤◌, ◌<◌, ◌≡◌, refl, ap, true, List, [], ◌∷◌, length, arith}
use smart_ids.Dict.Defs.{Dict, size, keys, contains, add, discard, IsDistinct, put, pop, pop_all}
use smart_ids.Dict.Laws.{contains-discard, contains-add}

module _ {ℓ} {K : Type ℓ} ⦃e : Eq K⦄ where
  pub length-discard-le : (k : K) (xs : List K) → length (discard k xs) ≤ length xs
  unfolding discard
  length-discard-le k [] = omega arith
  length-discard-le k (x ∷ xs) = ground (arith, length-discard-le k xs)

  pub length-discard-lt :
      (k : K) (xs : List K) → contains k xs ≡ true → length (discard k xs) < length xs
  unfolding discard contains
  length-discard-lt k [] h = ground arith
  length-discard-lt k (x ∷ xs) h = ground (arith, length-discard-lt k xs, length-discard-le k xs)

  pub discard-IsDistinct : (k : K) (xs : List K) → IsDistinct xs → IsDistinct (discard k xs)
  unfolding discard
  discard-IsDistinct k [] h = tt
  discard-IsDistinct k (x ∷ xs) h =
      ground (arith, discard-IsDistinct k xs h.1, contains-discard k x xs, h.0)

  pub add-IsDistinct : (k : K) (xs : List K) → IsDistinct xs → IsDistinct (add k xs)
  unfolding add contains
  add-IsDistinct k [] h = (refl, tt)
  add-IsDistinct k (x ∷ xs) h =
      ground
        (arith, add-IsDistinct k xs h.1, contains-add k x xs, h.0, e.beq_iff x k, e.beq_iff k x)

module _ {ℓ κ} {K : Type ℓ} {V : Type κ} ⦃e : Eq K⦄ where
  pub keys-put : (d : Dict K V) (k : K) (v : V) → keys (put d k v) ≡ add k (keys d)
  unfolding put add
  keys-put [] k v = refl
  keys-put ((i, w) ∷ d) k v = ground (arith, keys-put d k v)

  pub keys-pop : (d : Dict K V) (k : K) → keys (pop d k) ≡ discard k (keys d)
  unfolding pop discard
  keys-pop [] k = refl
  keys-pop ((i, w) ∷ d) k = ground (arith, keys-pop d k)

  pub length-keys : (d : Dict K V) → length (keys d) ≡ size d
  length-keys [] = refl
  length-keys ((i, w) ∷ d) = ap suc (length-keys d)

  pub size-pop-le : (d : Dict K V) (k : K) → size (pop d k) ≤ size d
  unfolding pop
  size-pop-le [] k = omega arith
  size-pop-le ((i, w) ∷ d) k = ground (arith, size-pop-le d k)

  pub size-put-le : (d : Dict K V) (k : K) (v : V) → size (put d k v) ≤ suc (size d)
  unfolding put
  size-put-le [] k v = omega arith
  size-put-le ((i, w) ∷ d) k v = ground (arith, size-put-le d k v)

  pub pop_all-IsDistinct :
      (d : Dict K V) (ks : List K) → IsDistinct (keys d) → IsDistinct (keys (pop_all d ks))
  unfolding pop_all
  pop_all-IsDistinct d [] h = h
  pop_all-IsDistinct d (k ∷ ks) h =
      pop_all-IsDistinct (pop d k) ks (rw keys-pop (discard-IsDistinct k (keys d) h))
