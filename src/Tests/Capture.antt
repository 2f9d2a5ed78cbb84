-- ===== src/Tests/Capture.antt =====
-- The feature extractor.
use smart_ids.Base.{string_eq, nat_eq, ℕ, ◌≡◌, refl, true, Bool, All}
use smart_ids.Capture.Extractor.{feature_columns, sanitize_feature_dict, feature_values, extract}
use smart_ids.Capture.Extractor.Columns.{extract-feature_columns}
use smart_ids.Dict.{keys, values}
use smart_ids.Traffic.Session.{new_session}
use smart_ids.Tests.Data.{syn_packet, whole_numbers, statistics}

extract-feature_columns_example :
    (keys (extract statistics (λ x. true) (new_session syn_packet)) ≡ feature_columns)
    × (extract statistics (λ x. true) (new_session syn_packet)
        ≡ sanitize_feature_dict
            (λ x. true)
            (feature_values statistics (λ x. true) (new_session syn_packet)))
    × All
        (λ (v : ℕ). ◌≡◌ {A = Bool} true true)
        (values (extract statistics (λ x. true) (new_session syn_packet)))
extract-feature_columns_example =
    extract-feature_columns statistics (λ x. true) refl (new_session syn_packet)
