-- ===== src/Capture/Extractor/Columns.antt =====
-- The columns of a feature vector.
use smart_ids.Base.{
  string_eq, beq_refl, ◌≡◌, refl, ap, sym, ◌∙◌, subst, Bool, true, false, Option, none, some, List,
  [], ◌∷◌, String, All, arith, eq_iff,
}
use smart_ids.Dict.{Dict, keys, values, get, get_or, contains, IsDistinct}
use smart_ids.Traffic.Stats.{Floats}
use smart_ids.Traffic.Session.{TrafficSession}
use smart_ids.Capture.Statistics.{Statistics}
use smart_ids.Capture.Extractor.{
  feature_columns, pick, sanitize_value, sanitize_feature_dict, feature_values, extract,
}

keys-pick {ℓ} :
    {V : Type ℓ} (default : V) (columns : List String) (d : Dict String V)
    → keys (pick default columns d) ≡ columns
unfolding pick
keys-pick default [] d = refl
keys-pick default (c ∷ columns) d = ap (◌∷◌ c) (keys-pick default columns d)

-- A first entry with another key is not read.
pick-cons {ℓ} :
    {V : Type ℓ} (default : V) (columns : List String) (k : String) (v : V) (d : Dict String V)
    → contains k columns ≡ false
    → pick default columns ((k, v) ∷ d) ≡ pick default columns d
unfolding pick contains get_or get
pick-cons default [] k v d h = refl
pick-cons default (c ∷ columns) k v d h =
    ground (arith, pick-cons default columns k v d, h, eq_iff c k, eq_iff k c)

pub pick_self {ℓ} :
    {V : Type ℓ} (default : V) (d : Dict String V)
    → IsDistinct (keys d)
    → pick default (keys d) d ≡ d
unfolding pick get_or get
pick_self default [] h = refl
pick_self default ((k, v) ∷ d) h =
    rw (get_or, get, pick-cons default (keys d) k v d h.0, pick_self default d h.1, beq_refl k) refl

pub feature_columns-IsDistinct : IsDistinct feature_columns
unfolding feature_columns contains
feature_columns-IsDistinct = search

module _ {F : Type 0} ⦃f : Floats F⦄ (statistics : Statistics F) (is_finite : F → Bool) where
  keys-sanitize_feature_dict :
      (d : Dict String (Option F)) → keys (sanitize_feature_dict is_finite d) ≡ keys d
  unfolding sanitize_feature_dict
  keys-sanitize_feature_dict [] = refl
  keys-sanitize_feature_dict ((k, v) ∷ d) = ap (◌∷◌ k) (keys-sanitize_feature_dict d)

  keys-feature_values :
      (s : TrafficSession F) → keys (feature_values statistics is_finite s) ≡ feature_columns
  unfolding feature_values feature_columns
  keys-feature_values s = refl

  sanitize_value-finite :
      is_finite (f.of_nat 0) ≡ true → (v : Option F) → is_finite (sanitize_value is_finite v) ≡ true
  unfolding sanitize_value
  sanitize_value-finite zero_finite none = zero_finite
  sanitize_value-finite zero_finite (some v) = ground (arith, zero_finite)

  sanitize-finite :
      is_finite (f.of_nat 0) ≡ true
      → (d : Dict String (Option F))
      → All (λ v. is_finite v ≡ true) (values (sanitize_feature_dict is_finite d))
  unfolding sanitize_feature_dict
  sanitize-finite zero_finite [] = tt
  sanitize-finite zero_finite ((k, v) ∷ d) =
      (sanitize_value-finite zero_finite v, sanitize-finite zero_finite d)

  extract-sanitize :
      (s : TrafficSession F)
      → extract statistics is_finite s
        ≡ sanitize_feature_dict is_finite (feature_values statistics is_finite s)
  unfolding extract
  extract-sanitize s =
      let d = sanitize_feature_dict is_finite (feature_values statistics is_finite s) in
      let same =
        keys-sanitize_feature_dict (feature_values statistics is_finite s)
        ∙ keys-feature_values s in
      ap (λ columns. pick (f.of_nat 0) columns d) (sym same)
      ∙ pick_self (f.of_nat 0) d (subst IsDistinct (sym same) feature_columns-IsDistinct)

  -- A feature vector has exactly the columns of the schema, in their order; each is the value that
  -- the session gives it, made finite, so that no column is filled up with a default; and, where 0
  -- is finite, every value is.
  pub extract-feature_columns :
      is_finite (f.of_nat 0) ≡ true
      → (s : TrafficSession F)
      → (keys (extract statistics is_finite s) ≡ feature_columns)
        × (extract statistics is_finite s
            ≡ sanitize_feature_dict is_finite (feature_values statistics is_finite s))
        × All (λ v. is_finite v ≡ true) (values (extract statistics is_finite s))
  extract-feature_columns zero_finite s = (
    ap keys (extract-sanitize s)
        ∙ keys-sanitize_feature_dict (feature_values statistics is_finite s)
        ∙ keys-feature_values s,
    extract-sanitize s,
    rw (extract-sanitize s) (sanitize-finite zero_finite (feature_values statistics is_finite s)),
  )
