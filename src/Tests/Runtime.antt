-- ===== src/Tests/Runtime.antt =====
-- The runtime of the models, with whole numbers in place of floats.
use smart_ids.Base.{ℕ, ◌≡◌, refl, Bool, true, none, some, [], ◌∷◌, String, length}
use smart_ids.Dict.{Dict, values}
use smart_ids.Traffic.Session.{new_session}
use smart_ids.Capture.Extractor.{extract}
use smart_ids.Runtime.Stack.{
  Model, RuntimeModelBundle, Predictor, build_frame, predict_primary, predict,
  predict_primary_and_submit_secondary,
}
use smart_ids.Runtime.Stack.Agreement.{
  verdict, primary_verdict, verdict_of_primary, build_frame-extract,
}
use smart_ids.Tests.Data.{syn_packet, whole_numbers, statistics}

abbrev finite : ℕ → Bool
finite n = true

abbrev model : Model ℕ
model = record {
  predict = λ row. length row;
  predict_proba = none;
  inverse_transform = λ n. "Normal Traffic";
}

abbrev bundle : RuntimeModelBundle ℕ
bundle = record {
  model_key = "xgboost";
  model_name = "XGBoost";
  model = some model;
  artifact_error = none;
}

abbrev predictor : Predictor ℕ ℕ
predictor = record {
  model_stack = record { primary_bundle = bundle; secondary_bundle = some bundle };
  secondary_publisher = none;
}

abbrev features : Dict String ℕ
features = ("dst_port", 22) ∷ []

verdict_of_primary_example :
    (verdict (predict_primary_and_submit_secondary finite predictor features 7).1
      ≡ primary_verdict finite predictor.model_stack.primary_bundle features)
    × (verdict (predict finite predictor.model_stack features)
        ≡ primary_verdict finite predictor.model_stack.primary_bundle features)
    × (verdict (predict_primary finite predictor.model_stack features)
        ≡ primary_verdict finite predictor.model_stack.primary_bundle features)
verdict_of_primary_example = verdict_of_primary finite predictor features 7

build_frame-extract_example :
    build_frame finite (extract statistics finite (new_session syn_packet))
    ≡ values (extract statistics finite (new_session syn_packet))
build_frame-extract_example = build_frame-extract finite refl statistics (new_session syn_packet)
