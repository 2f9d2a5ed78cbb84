-- ===== src/Dict/Defs.antt =====
-- The operations of the dictionaries and of membership.
use smart_ids.Base.{
  Eq, ◌==◌, ℕ, Bool, false, ◌||◌, Option, none, some, List, [], ◌∷◌, length, if◌then◌else◌, ◌≡◌,
}

abbrev pub Dict {ℓ κ} : Type ℓ → Type κ → Type (ℓ ⊔ κ)
Dict K V = List (K × V)

-- `len(d)`
abbrev pub size {ℓ κ} : {K : Type ℓ} {V : Type κ} → Dict K V → ℕ
size d = length d

-- `list(d)`
abbrev pub keys {ℓ κ} : {K : Type ℓ} {V : Type κ} → Dict K V → List K
keys [] = []
keys ((k, v) ∷ d) = k ∷ keys d

abbrev pub values {ℓ κ} : {K : Type ℓ} {V : Type κ} → Dict K V → List V
values [] = []
values ((k, v) ∷ d) = v ∷ values d

module _ {ℓ} {K : Type ℓ} ⦃e : Eq K⦄ where
  -- `k in xs`
  unfoldable pub contains : K → List K → Bool
  contains k [] = false
  contains k (x ∷ xs) = (x == k) || contains k xs

  -- `xs.add(k)` on a set kept in the order of insertion
  unfoldable pub add : K → List K → List K
  add k [] = k ∷ []
  add k (x ∷ xs) = let rest = add k xs in if x == k then x ∷ xs else x ∷ rest

  -- `xs.discard(k)`
  unfoldable pub discard : K → List K → List K
  discard k [] = []
  discard k (x ∷ xs) = let rest = discard k xs in if x == k then rest else x ∷ rest

  -- `set(xs) | set(ys)`
  unfoldable pub union : List K → List K → List K
  unfolding add
  union xs [] = xs
  union xs (y ∷ ys) = union (add y xs) ys

  abbrev pub IsDistinct : List K → Type 0
  IsDistinct [] = Unit
  IsDistinct (x ∷ xs) = (contains x xs ≡ false) × IsDistinct xs

module _ {ℓ κ} {K : Type ℓ} {V : Type κ} ⦃e : Eq K⦄ where
  -- `d.get(k)`
  unfoldable pub get : Dict K V → K → Option V
  get [] k = none
  get ((j, v) ∷ d) k = if j == k then some v else get d k

  -- `d.get(k, default)`
  unfoldable pub get_or : Dict K V → K → V → V
  unfolding get
  get_or d k default = elim (get d k) [ none ↦ default | some v ↦ v ]

  -- `d[k] = v`
  unfoldable pub put : Dict K V → K → V → Dict K V
  put [] k v = (k, v) ∷ []
  put ((j, w) ∷ d) k v = let rest = put d k v in if j == k then (j, v) ∷ d else (j, w) ∷ rest

  -- `d.pop(k, None)`, the dictionary that is left
  unfoldable pub pop : Dict K V → K → Dict K V
  pop [] k = []
  pop ((j, w) ∷ d) k = let rest = pop d k in if j == k then rest else (j, w) ∷ rest

  -- `for k in ks: d.pop(k, None)`
  unfoldable pub pop_all : Dict K V → List K → Dict K V
  unfolding pop
  pop_all d [] = d
  pop_all d (k ∷ ks) = pop_all (pop d k) ks
