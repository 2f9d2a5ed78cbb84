-- ===== src/Window.antt =====
-- Sliding windows: the buckets (a `deque` for each key) that the heuristic detector and the response
-- policy keep, with the newest entry last.
pub mod Laws
pub mod Tables
use smart_ids.Base.{Eq, ℕ, ◌-◌, Bool, List, [], ◌∷◌, ◌++◌, drop_while, ltb, Option, none, some}
use smart_ids.Dict.{Dict, get, get_or, put}
use smart_ids.Packet.{Time}

module _ {ℓ} {A : Type ℓ} (time : A → Time) where
  -- `bucket[0] < cutoff`. The cutoff is a difference that stops at 0, where the source's is
  -- negative; no time is below either.
  abbrev pub is_before : Time → A → Bool
  is_before cutoff x = ltb (time x) cutoff

  -- `while bucket and bucket[0] < cutoff: bucket.popleft()`
  unfoldable pub trim : Time → List A → List A
  trim cutoff bucket = drop_while (is_before cutoff) bucket

  -- The body of the append methods: `bucket.append(x)`, then the loop at `timestamp - window`.
  unfoldable pub slide : Time → A → List A → List A
  unfolding trim
  slide window x bucket = trim (time x - window) (bucket ++ x ∷ [])

  module _ {κ} {K : Type κ} ⦃e : Eq K⦄ where
    -- `bucket = table.setdefault(key, deque())`, and the append
    unfoldable pub slide_at : Time → K → A → Dict K (List A) → Dict K (List A)
    unfolding slide get_or
    slide_at window key x table = put table key (slide window x (get_or table key []))

    -- `bucket = table.get(key)`, and the loop if there is one
    unfoldable pub trim_at : Time → K → Dict K (List A) → Dict K (List A)
    unfolding trim
    trim_at cutoff key table = elim (get table key) [
      | none ↦ table
      | some bucket ↦ put table key (trim cutoff bucket)
    ]
