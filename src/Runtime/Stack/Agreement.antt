-- ===== src/Runtime/Stack/Agreement.antt =====
-- What a prediction depends on, and what the models see.
use smart_ids.Base.{
  string_eq, ℕ, ◌≡◌, refl, ap, sym, ◌∙◌, subst, Bool, true, Option, none, some, List, [], ◌∷◌,
  String, map, All, if◌then◌else◌, Option-cases, inl, inr,
}
use smart_ids.Dict.{Dict, values, get_or, IsDistinct}
use smart_ids.Traffic.Stats.{Floats}
use smart_ids.Traffic.Session.{TrafficSession}
use smart_ids.Capture.Statistics.{Statistics, safe_max}
use smart_ids.Capture.Extractor.{feature_columns, pick, extract}
use smart_ids.Capture.Extractor.Columns.{
  pick_self, feature_columns-IsDistinct, extract-feature_columns,
}
use smart_ids.Runtime.Stack.{
  RuntimeModelBundle, RuntimeModelStack, StackPrediction, Predictor, build_frame, predict_primary,
  predict, Model, bundle_predict, confidence_of, predict_primary_from_frame,
  predict_primary_and_submit_secondary,
}

-- What the processor acts on.
pub record Verdict (F : Type 0) : Type 0 where
  pub label : String
  pub confidence : F
  pub encoded : ℕ
  pub model_key : String

abbrev pub verdict : {F : Type 0} → Option (StackPrediction F) → Option (Verdict F)
verdict none = none
verdict (some p) = some (record {
  label = p.label;
  confidence = p.confidence;
  encoded = p.encoded;
  model_key = p.model_key;
})

module _ {F : Type 0} ⦃f : Floats F⦄ (is_finite : F → Bool) where
  -- The largest probability, or 0 for a model that gives none.
  abbrev pub highest : Option (List F → List F) → List F → F
  highest none row = f.of_nat 0
  highest (some predict_proba) row = safe_max (predict_proba row)

  -- What the primary model says of these features, asked directly.
  pub primary_verdict : RuntimeModelBundle F → Dict String F → Option (Verdict F)
  primary_verdict bundle features = elim bundle.model [
    | none ↦ none
    | some model ↦
        let row = build_frame is_finite features in
        some (record {
          label = model.inverse_transform (model.predict row);
          confidence = highest model.predict_proba row;
          encoded = model.predict row;
          model_key = bundle.model_key;
        })
  ]

  bundle_predict-confidence :
      (bundle : RuntimeModelBundle F) (model : Model F) (row : List F)
      → (bundle_predict bundle model row).confidence ≡ highest model.predict_proba row
  unfolding bundle_predict
  bundle_predict-confidence bundle model row = by_cases model.predict_proba
    where
      by_cases :
          (o : Option (List F → List F))
          → confidence_of (elim o [ none ↦ none | some predict_proba ↦ some (predict_proba row) ])
            ≡ highest o row
      by_cases none = refl
      by_cases (some predict_proba) = refl

  verdict_with : RuntimeModelBundle F → Model F → List F → F → Option (Verdict F)
  verdict_with bundle model row confidence = some (record {
    label = model.inverse_transform (model.predict row);
    confidence = confidence;
    encoded = model.predict row;
    model_key = bundle.model_key;
  })

  predict_primary-verdict :
      (stack : RuntimeModelStack F) (features : Dict String F)
      → verdict (predict_primary is_finite stack features)
        ≡ primary_verdict stack.primary_bundle features
  unfolding predict_primary predict_primary_from_frame bundle_predict primary_verdict verdict_with
  predict_primary-verdict stack features = elim (Option-cases stack.primary_bundle.model) [
    | inl e ↦ simp (predict_primary, primary_verdict, e) refl
    | inr (model, e) ↦
        let bundle = stack.primary_bundle in
        let row = build_frame is_finite features in
        let direct : primary_verdict bundle features
            ≡ verdict_with bundle model row (highest model.predict_proba row) =
          rw (primary_verdict, e) refl in
        let said : verdict (predict_primary is_finite stack features)
            ≡ verdict_with bundle model row (bundle_predict bundle model row).confidence =
          simp (predict_primary, e) refl in
        said
        ∙ ap (verdict_with bundle model row) (bundle_predict-confidence bundle model row)
        ∙ sym direct
  ]

  predict-verdict :
      (stack : RuntimeModelStack F) (features : Dict String F)
      → verdict (predict is_finite stack features) ≡ primary_verdict stack.primary_bundle features
  unfolding predict bundle_predict primary_verdict verdict_with
  predict-verdict stack features = elim (Option-cases stack.primary_bundle.model) [
    | inl e ↦ simp (predict, primary_verdict, e) refl
    | inr (model, e) ↦
        let bundle = stack.primary_bundle in
        let row = build_frame is_finite features in
        let direct : primary_verdict bundle features
            ≡ verdict_with bundle model row (highest model.predict_proba row) =
          rw (primary_verdict, e) refl in
        let said : verdict (predict is_finite stack features)
            ≡ verdict_with bundle model row (bundle_predict bundle model row).confidence =
          simp (predict, e) refl in
        said
        ∙ ap (verdict_with bundle model row) (bundle_predict-confidence bundle model row)
        ∙ sym direct
  ]

  submitted-primary :
      {K : Type 0} (p : Predictor F K) (features : Dict String F) (context : K)
      → (predict_primary_and_submit_secondary is_finite p features context).1
        ≡ predict_primary is_finite p.model_stack features
  unfolding predict_primary predict_primary_and_submit_secondary
  submitted-primary p features context = elim (Option-cases p.model_stack.primary_bundle.model) [
    | inl e ↦ simp (predict_primary, predict_primary_and_submit_secondary, e) refl
    | inr (model, e) ↦ simp (predict_primary, predict_primary_and_submit_secondary, e) refl
  ]

  -- The label, the confidence and the class of a prediction are those of the primary model, whichever
  -- of the three methods predicts, and whatever the secondary bundle and its queue are: the label is
  -- what the label encoder makes of the class that the model predicts for the frame of the features,
  -- the confidence is the largest of the probabilities, or 0 for a model that gives none, and there
  -- is no prediction where the primary model is not loaded.
  pub verdict_of_primary :
      {K : Type 0} (p : Predictor F K) (features : Dict String F) (context : K)
      → (verdict (predict_primary_and_submit_secondary is_finite p features context).1
          ≡ primary_verdict p.model_stack.primary_bundle features)
        × (verdict (predict is_finite p.model_stack features)
            ≡ primary_verdict p.model_stack.primary_bundle features)
        × (verdict (predict_primary is_finite p.model_stack features)
            ≡ primary_verdict p.model_stack.primary_bundle features)
  verdict_of_primary p features context = (
    ap verdict (submitted-primary p features context)
        ∙ predict_primary-verdict p.model_stack features,
    predict-verdict p.model_stack features,
    predict_primary-verdict p.model_stack features,
  )

  frame-values :
      (columns : List String) (d : Dict String F)
      → All (λ v. is_finite v ≡ true) (values (pick (f.of_nat 0) columns d))
      → map
          (λ (column : String).
            let value = get_or d column (f.of_nat 0) in
            if is_finite value then value else f.of_nat 0)
          columns
        ≡ values (pick (f.of_nat 0) columns d)
  unfolding pick
  frame-values [] d h = refl
  frame-values (c ∷ columns) d (h, t) =
      rw h (ap (◌∷◌ (get_or d c (f.of_nat 0))) (frame-values columns d t))

  -- The models see the session's features as they were extracted: the row of the frame has the
  -- values of the feature vector, in the order of the columns, and none is replaced.
  pub build_frame-extract :
      is_finite (f.of_nat 0) ≡ true
      → (statistics : Statistics F) (s : TrafficSession F)
      → build_frame is_finite (extract statistics is_finite s)
        ≡ values (extract statistics is_finite s)
  unfolding build_frame
  build_frame-extract zero_finite statistics s =
      let d = extract statistics is_finite s in
      let (same, sanitized, finite) = extract-feature_columns statistics is_finite zero_finite s in
      let whole : pick (f.of_nat 0) feature_columns d ≡ d =
        subst (λ columns. pick (f.of_nat 0) columns d ≡ d) same
          (pick_self (f.of_nat 0) d (subst IsDistinct (sym same) feature_columns-IsDistinct)) in
      frame-values feature_columns d
        (subst (λ x. All (λ v. is_finite v ≡ true) (values x)) (sym whole) finite)
      ∙ ap values whole
