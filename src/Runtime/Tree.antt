-- ===== src/Runtime/Tree.antt =====
-- ml/runtime/custom_decision_tree_runtime.py. A row is a list of floats; `at_most` is `<=`.
use smart_ids.Base.{
  nat_eq, ℕ, suc, zero, ◌+◌, ◌≡◌, refl, Bool, true, false, List, [], ◌∷◌, map, ltb, max,
  if◌then◌else◌, Bool-cases, inl, inr, sym,
}
use smart_ids.Traffic.Stats.{Floats}

-- A node that is a leaf, one that is none, or none at all (`None`). `class_counts` is empty where it
-- is `None`.
pub data TreeNode (F : Type 0) : Type 0 where
  missing : TreeNode F
  leaf : ℕ → List ℕ → TreeNode F
  branch : ℕ → F → TreeNode F → TreeNode F → TreeNode F

-- The prediction and the class counts of a leaf.
pub record Leaf : Type 0 where
  pub prediction : ℕ
  pub class_counts : List ℕ

-- `TreeNode(is_leaf=True, prediction=0, class_counts=[1])`
abbrev pub default_leaf : Leaf
default_leaf = record { prediction = 0; class_counts = 1 ∷ [] }

abbrev pub total_of : List ℕ → ℕ
total_of [] = 0
total_of (n ∷ ns) = n + total_of ns

module _ {F : Type 0} ⦃f : Floats F⦄ where
  -- `float(row[feature_index]) if feature_index < len(row) else 0.0`
  unfoldable pub value_at : List F → ℕ → F
  value_at [] n = f.of_nat 0
  value_at (x ∷ row) zero = x
  value_at (x ∷ row) (suc n) = value_at row n

  -- `_descend`; the loop goes down the tree.
  unfoldable pub descend : (F → F → Bool) → TreeNode F → List F → Leaf
  unfolding value_at
  descend at_most missing row = default_leaf
  descend at_most (leaf prediction class_counts) row = record {
    prediction = prediction;
    class_counts = class_counts;
  }
  descend at_most (branch feature_index threshold left right) row =
      elim (at_most (value_at row feature_index) threshold) [
        | true ↦ descend at_most left row
        | false ↦ descend at_most right row
      ]

  -- `_predict_row`
  unfoldable pub predict_row : (F → F → Bool) → TreeNode F → List F → ℕ
  unfolding descend
  predict_row at_most root row = (descend at_most root row).prediction

  -- `np.zeros(n_classes)` with 1.0 at the prediction, if that is one of the classes.
  unfoldable pub one_hot : ℕ → ℕ → List F
  one_hot zero prediction = []
  one_hot (suc n) zero = f.of_nat 1 ∷ one_hot n n
  one_hot (suc n) (suc prediction) = f.of_nat 0 ∷ one_hot n prediction

  -- `_predict_row_proba`
  unfoldable pub predict_row_proba : (F → F → Bool) → TreeNode F → ℕ → List F → List F
  unfolding descend one_hot
  predict_row_proba at_most root n_classes row =
      let node = descend at_most root row in
      let total = total_of node.class_counts in
      if ltb 0 total
      then map (λ (n : ℕ). f.div (f.of_nat n) (f.of_nat total)) node.class_counts
      else one_hot (max 1 n_classes) node.prediction

  -- The leaf at the end of the path that a row takes: left where its value is at most the
  -- threshold, right where it is not.
  pub data Reaches (at_most : F → F → Bool) (row : List F) : TreeNode F → Leaf → Type 0 where
    at_missing : Reaches at_most row missing default_leaf
    at_leaf :
        (prediction : ℕ) (class_counts : List ℕ)
        → Reaches at_most row
            (leaf prediction class_counts)
            (record { prediction = prediction; class_counts = class_counts })
    goes_left :
        (n : ℕ) (threshold : F) (left right : TreeNode F) (end : Leaf)
        → at_most (value_at row n) threshold ≡ true
        → Reaches at_most row left end
        → Reaches at_most row (branch n threshold left right) end
    goes_right :
        (n : ℕ) (threshold : F) (left right : TreeNode F) (end : Leaf)
        → at_most (value_at row n) threshold ≡ false
        → Reaches at_most row right end
        → Reaches at_most row (branch n threshold left right) end

  descend-Reaches :
      (at_most : F → F → Bool) (row : List F) (root : TreeNode F)
      → Reaches at_most row root (descend at_most root row)
  unfolding descend
  descend-Reaches at_most row missing = Reaches.at_missing
  descend-Reaches at_most row (leaf p c) = Reaches.at_leaf p c
  descend-Reaches at_most row (branch n threshold left right) =
      elim (Bool-cases (at_most (value_at row n) threshold)) [
        | inl e ↦
            rw (descend, e)
              (Reaches.goes_left n threshold left right _ e (descend-Reaches at_most row left))
        | inr e ↦
            rw (descend, e)
              (Reaches.goes_right n threshold left right _ e (descend-Reaches at_most row right))
      ]

  Reaches-descend :
      (at_most : F → F → Bool) (row : List F) (root : TreeNode F) (end : Leaf)
      → Reaches at_most row root end
      → descend at_most root row ≡ end
  unfolding descend
  Reaches-descend at_most row _ _ Reaches.at_missing = refl
  Reaches-descend at_most row _ _ (Reaches.at_leaf p c) = refl
  Reaches-descend at_most row _ _ (Reaches.goes_left n threshold left right end e r) =
      rw (descend, e) (Reaches-descend at_most row left end r)
  Reaches-descend at_most row _ _ (Reaches.goes_right n threshold left right end e r) =
      rw (descend, e) (Reaches-descend at_most row right end r)

  -- The loop of the decision tree ends for every tree and every row, also for one with a child that
  -- is missing: the row's path leads to a leaf, the one that the loop returns, and to no other.
  pub descend_ends :
      (at_most : F → F → Bool) (row : List F) (root : TreeNode F)
      → Reaches at_most row root (descend at_most root row)
        × ((end : Leaf) → Reaches at_most row root end → end ≡ descend at_most root row)
  descend_ends at_most row root =
      (descend-Reaches at_most row root, λ end r. sym (Reaches-descend at_most row root end r))
