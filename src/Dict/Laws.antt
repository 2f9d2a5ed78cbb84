-- ===== src/Dict/Laws.antt =====
-- What a read returns after a write. The laws have no side condition.
use smart_ids.Base.{
  Eq, ◌==◌, beq_refl, ◌≡◌, refl, true, false, ◌||◌, none, some, List, [], ◌∷◌, arith, if◌then◌else◌,
}
use smart_ids.Dict.Defs.{Dict, keys, contains, add, discard, union, get, get_or, put, pop, pop_all}

module _ {ℓ} {K : Type ℓ} ⦃e : Eq K⦄ where
  pub contains-add : (k j : K) (xs : List K) → contains j (add k xs) ≡ ((k == j) || contains j xs)
  unfolding contains add
  contains-add k j [] = refl
  contains-add k j (x ∷ xs) =
      ground (arith, contains-add k j xs, e.beq_iff x k, e.beq_iff x j, e.beq_iff k j)

  pub contains-discard :
      (k j : K) (xs : List K)
      → contains j (discard k xs) ≡ (if k == j then false else contains j xs)
  unfolding contains discard
  contains-discard k j [] = ground arith
  contains-discard k j (x ∷ xs) =
      ground (arith, contains-discard k j xs, e.beq_iff x k, e.beq_iff x j, e.beq_iff k j)

  pub contains-union :
      (j : K) (xs ys : List K) → contains j (union xs ys) ≡ (contains j xs || contains j ys)
  unfolding contains union
  contains-union j xs [] = ground arith
  contains-union j xs (y ∷ ys) = ground (arith, contains-union j (add y xs) ys, contains-add y j xs)

module _ {ℓ κ} {K : Type ℓ} {V : Type κ} ⦃e : Eq K⦄ where
  pub get-put :
      (d : Dict K V) (k j : K) (v : V) → get (put d k v) j ≡ (if k == j then some v else get d j)
  unfolding get put
  get-put [] k j v = refl
  get-put ((i, w) ∷ d) k j v =
      ground (arith, get-put d k j v, e.beq_iff i k, e.beq_iff i j, e.beq_iff k j)

  pub get-put_self : (d : Dict K V) (k : K) (v : V) → get (put d k v) k ≡ some v
  get-put_self d k v = ground (arith, get-put d k k v, beq_refl k)

  pub get-pop : (d : Dict K V) (k j : K) → get (pop d k) j ≡ (if k == j then none else get d j)
  unfolding get pop
  get-pop [] k j = ground arith
  get-pop ((i, w) ∷ d) k j =
      ground (arith, get-pop d k j, e.beq_iff i k, e.beq_iff i j, e.beq_iff k j)

  pub get-pop_all :
      (d : Dict K V) (ks : List K) (j : K)
      → get (pop_all d ks) j ≡ (if contains j ks then none else get d j)
  unfolding pop_all contains
  get-pop_all d [] j = refl
  get-pop_all d (k ∷ ks) j = ground (arith, get-pop_all (pop d k) ks j, get-pop d k j)

  pub get_or-put :
      (d : Dict K V) (k j : K) (v default : V)
      → get_or (put d k v) j default ≡ (if k == j then v else get_or d j default)
  unfolding get_or
  get_or-put d k j v default = ground (arith, get-put d k j v)

  pub get_or-pop :
      (d : Dict K V) (k j : K) (default : V)
      → get_or (pop d k) j default ≡ (if k == j then default else get_or d j default)
  unfolding get_or
  get_or-pop d k j default = ground (arith, get-pop d k j)

  pub contains-keys :
      (d : Dict K V) (j : K) → contains j (keys d) ≡ elim (get d j) [ none ↦ false | some _ ↦ true ]
  unfolding get contains
  contains-keys [] j = refl
  contains-keys ((i, w) ∷ d) j = ground (arith, contains-keys d j)

pub ruleset dict_laws = (get-put, get-pop, get-pop_all)
