-- ===== src/Runtime/Artifacts/Names.antt =====
-- The comparison of column names.
use smart_ids.Base.{
  string_eq, ◌==◌, ◌≡◌, beq_refl, refl, subst, ap, true, false, Option, none, some, List, [], ◌∷◌,
  String, ◌⊎◌, inl, inr, if◌then◌else◌, Bool-cases, arith,
}
use smart_ids.Capture.Extractor.{feature_columns}
use smart_ids.Runtime.Artifacts.{same_names, names_agree}

pub same_names_eq : (xs ys : List String) → same_names xs ys ≡ true → xs ≡ ys
same_names_eq [] [] h = refl
same_names_eq [] (y ∷ ys) h = absurd (cc)
same_names_eq (x ∷ xs) [] h = absurd (cc)
same_names_eq (x ∷ xs) (y ∷ ys) h = elim (Bool-cases (x == y)) [
  | inl e ↦
      let rest : same_names xs ys ≡ true =
        subst (λ b. (if b then same_names xs ys else false) ≡ true) e h in
      let first : x ≡ y = (string_eq.beq_iff x y).0 e in let others = same_names_eq xs ys rest in cc
  | inr e ↦ absurd (ground (arith, h, e))
]

pub names_agree_eq :
    (names : Option (List String))
    → names_agree names ≡ true
    → (names ≡ none) ⊎ (names ≡ some feature_columns)
names_agree_eq none h = inl refl
names_agree_eq (some names) h = inr (ap some (same_names_eq names feature_columns h))

pub same_names_refl : (xs : List String) → same_names xs xs ≡ true
same_names_refl [] = refl
same_names_refl (x ∷ xs) = rw (beq_refl x, same_names_refl xs) refl

pub agree_names :
    (names : Option (List String))
    → (names ≡ none) ⊎ (names ≡ some feature_columns)
    → names_agree names ≡ true
agree_names names (inl e) = rw e refl
agree_names names (inr e) = rw e (same_names_refl feature_columns)
