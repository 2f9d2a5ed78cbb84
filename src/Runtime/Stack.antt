-- ===== src/Runtime/Stack.antt =====
-- ml/runtime/model_stack.py, live_predictor.py and completed_flow_predictor.py. The models and the
-- label encoders are parameters. An entry of a prediction that names a path is left out.
pub mod Agreement
use smart_ids.Base.{
  string_eq, ◌==◌, ℕ, Bool, true, false, ◌&&◌, Option, none, some, List, [], ◌∷◌, String, map,
  if◌then◌else◌,
}
use smart_ids.Dict.{Dict, get_or}
use smart_ids.Traffic.Stats.{Floats}
use smart_ids.Capture.Statistics.{safe_max}
use smart_ids.Capture.Extractor.{feature_columns, pick}
use smart_ids.Forwarding.Publisher.{BackgroundPublisher, submit}

-- A model with its label encoder: what is loaded from the artifacts. `predict_proba` is there if the
-- model has it.
pub record Model (F : Type 0) : Type 0 where
  pub predict : List F → ℕ
  pub predict_proba : Option (List F → List F)
  pub inverse_transform : ℕ → String

pub record RuntimeModelBundle (F : Type 0) : Type 0 where
  pub model_key : String
  pub model_name : String
  pub model : Option (Model F)
  pub artifact_error : Option String

pub record BundlePrediction (F : Type 0) : Type 0 where
  pub model_key : String
  pub model_name : String
  pub label : String
  pub confidence : F
  pub encoded : ℕ
  pub probabilities : Option (List F)

pub record StackPrediction (F : Type 0) : Type 0 where
  pub label : String
  pub confidence : F
  pub encoded : ℕ
  pub model_key : String
  pub model_name : String
  pub primary_output : BundlePrediction F
  pub secondary_output : Option (BundlePrediction F)
  pub primary_enabled : Bool
  pub secondary_enabled : Bool
  pub primary_artifact_error : Option String
  pub secondary_artifact_error : Option String

pub record RuntimeModelStack (F : Type 0) : Type 0 where
  pub primary_bundle : RuntimeModelBundle F
  pub secondary_bundle : Option (RuntimeModelBundle F)

abbrev pub is_some : {A : Type 0} → Option A → Bool
is_some none = false
is_some (some a) = true

module _ {F : Type 0} where
  -- A bundle is enabled when its artifacts were loaded.
  abbrev pub bundle_enabled : RuntimeModelBundle F → Bool
  bundle_enabled bundle = is_some bundle.model

  -- `self.secondary_bundle is not None and self.secondary_bundle.enabled`, the model.
  abbrev pub enabled_model : Option (RuntimeModelBundle F) → Option (RuntimeModelBundle F × Model F)
  enabled_model none = none
  enabled_model (some bundle) = elim bundle.model [
    | none ↦ none
    | some model ↦ some (bundle, model)
  ]

  abbrev pub secondary_error : Option (RuntimeModelBundle F) → Option String
  secondary_error none = none
  secondary_error (some bundle) = bundle.artifact_error

module _ {F : Type 0} ⦃f : Floats F⦄ where
  -- `np.max`, of a list that is not empty.
  abbrev pub confidence_of : Option (List F) → F
  confidence_of none = f.of_nat 0
  confidence_of (some probabilities) = safe_max probabilities

  -- `RuntimeModelBundle.predict`
  unfoldable pub bundle_predict : RuntimeModelBundle F → Model F → List F → BundlePrediction F
  unfolding safe_max
  bundle_predict bundle model row =
      let encoded = model.predict row in
      let probabilities : Option (List F) = elim model.predict_proba [
        | none ↦ none
        | some predict_proba ↦ some (predict_proba row)
      ] in
      record {
        model_key = bundle.model_key;
        model_name = bundle.model_name;
        label = model.inverse_transform encoded;
        confidence = confidence_of probabilities;
        encoded = encoded;
        probabilities = probabilities;
      }

  -- `build_frame`, the one row of the frame, with what is not finite replaced.
  unfoldable pub build_frame : (F → Bool) → Dict String F → List F
  unfolding get_or feature_columns
  build_frame is_finite features =
      map
        (λ (column : String).
          let value = get_or features column (f.of_nat 0) in
          if is_finite value then value else f.of_nat 0)
        feature_columns

  unfoldable pub predict_primary_from_frame :
      RuntimeModelStack F → Model F → List F → StackPrediction F
  unfolding bundle_predict
  predict_primary_from_frame stack model row =
      let primary_prediction = bundle_predict stack.primary_bundle model row in
      record {
        label = primary_prediction.label;
        confidence = primary_prediction.confidence;
        encoded = primary_prediction.encoded;
        model_key = primary_prediction.model_key;
        model_name = primary_prediction.model_name;
        primary_output = primary_prediction;
        secondary_output = none;
        primary_enabled = bundle_enabled stack.primary_bundle;
        secondary_enabled = is_some (enabled_model stack.secondary_bundle);
        primary_artifact_error = stack.primary_bundle.artifact_error;
        secondary_artifact_error = secondary_error stack.secondary_bundle;
      }

  -- `RuntimeModelStack.predict_primary`
  unfoldable pub predict_primary :
      (F → Bool) → RuntimeModelStack F → Dict String F → Option (StackPrediction F)
  unfolding build_frame predict_primary_from_frame
  predict_primary is_finite stack features = elim stack.primary_bundle.model [
    | none ↦ none
    | some model ↦ some (predict_primary_from_frame stack model (build_frame is_finite features))
  ]

  -- `RuntimeModelStack.predict`, which runs both models.
  unfoldable pub predict :
      (F → Bool) → RuntimeModelStack F → Dict String F → Option (StackPrediction F)
  unfolding build_frame bundle_predict
  predict is_finite stack features = elim stack.primary_bundle.model [
    | none ↦ none
    | some model ↦
        let row = build_frame is_finite features in
        let secondary : Option (BundlePrediction F) = elim (enabled_model stack.secondary_bundle) [
          | none ↦ none
          | some (bundle, other) ↦ some (bundle_predict bundle other row)
        ] in
        let primary_prediction = bundle_predict stack.primary_bundle model row in
        some (record {
          label = primary_prediction.label;
          confidence = primary_prediction.confidence;
          encoded = primary_prediction.encoded;
          model_key = primary_prediction.model_key;
          model_name = primary_prediction.model_name;
          primary_output = primary_prediction;
          secondary_output = secondary;
          primary_enabled = bundle_enabled stack.primary_bundle;
          secondary_enabled = is_some secondary;
          primary_artifact_error = stack.primary_bundle.artifact_error;
          secondary_artifact_error = secondary_error stack.secondary_bundle;
        })
  ]

-- A predictor: its stack, and the queue to the secondary model with frames and contexts.
pub record Predictor (F K : Type 0) : Type 0 where
  pub model_stack : RuntimeModelStack F
  pub secondary_publisher : Option (BackgroundPublisher (List F × K))

module _ {F K : Type 0} ⦃f : Floats F⦄ (is_finite : F → Bool) where
  -- `_submit_secondary_frame`
  unfoldable pub submit_secondary_frame : Predictor F K → List F → K → Predictor F K × Bool
  unfolding submit
  submit_secondary_frame p row context = elim (enabled_model p.model_stack.secondary_bundle) [
    | none ↦ (p, false)
    | some enabled ↦ elim p.secondary_publisher [
      | none ↦ (p, false)
      | some publisher ↦
          let answer = submit publisher (row, context) in
          (record p { secondary_publisher = some answer.0 }, answer.1)
    ]
  ]

  unfoldable pub predict_primary_and_submit_secondary :
      Predictor F K → Dict String F → K → Predictor F K × Option (StackPrediction F)
  unfolding build_frame predict_primary_from_frame submit_secondary_frame
  predict_primary_and_submit_secondary p features context =
      elim p.model_stack.primary_bundle.model [
        | none ↦ (p, none)
        | some model ↦
            let row = build_frame is_finite features in
            (
              (submit_secondary_frame p row context).0,
              some (predict_primary_from_frame p.model_stack model row),
            )
      ]

  -- `submit_secondary`
  unfoldable pub submit_secondary : Predictor F K → Dict String F → K → Predictor F K × Bool
  unfolding build_frame submit_secondary_frame
  submit_secondary p features context =
      submit_secondary_frame p (build_frame is_finite features) context

  -- The same two methods of `CompletedFlowPredictor`, which is a copy of `LivePredictor`.
  unfoldable pub completed_flow_predict_and_submit :
      Predictor F K → Dict String F → K → Predictor F K × Option (StackPrediction F)
  unfolding predict_primary_and_submit_secondary
  completed_flow_predict_and_submit = predict_primary_and_submit_secondary

  unfoldable pub completed_flow_submit_secondary :
      Predictor F K → Dict String F → K → Predictor F K × Bool
  unfolding submit_secondary
  completed_flow_submit_secondary = submit_secondary
