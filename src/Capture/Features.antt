-- ===== src/Capture/Features.antt =====
-- feature_engine/feature_store/feature_store.py. The lock makes each method one step.
pub mod Newest
use smart_ids.Base.{ℕ, List, [], ◌∷◌, ◌++◌, length, drop, ◌-◌}

pub record FeatureStore (A : Type 0) : Type 0 where
  pub max_size : ℕ
  pub features : List A

module _ {A : Type 0} where
  -- `__init__`
  unfoldable pub empty_store : ℕ → FeatureStore A
  empty_store max_size = record { max_size = max_size; features = [] }

  -- `add`: a `deque` with a `maxlen` drops its oldest entries.
  unfoldable pub add_feature : FeatureStore A → A → FeatureStore A
  add_feature store feature =
      let longer = store.features ++ feature ∷ [] in
      record store { features = drop (length longer - store.max_size) longer }

  unfoldable pub get_all : FeatureStore A → List A
  get_all store = store.features

  unfoldable pub feature_count : FeatureStore A → ℕ
  feature_count store = length store.features
