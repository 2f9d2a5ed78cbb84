-- ===== src/Capture/Statistics.antt =====
-- feature_engine/stats.py. `mean`, `pstdev` and `pvariance` of Python's `statistics` are parameters,
-- and so is the float that is a length of time in seconds.
pub mod Gaps
use smart_ids.Base.{
  ℕ, ◌-◌, Option, none, some, List, [], ◌∷◌, map, foldl, sort_by, if◌then◌else◌, ltb, leb, length,
}
use smart_ids.Packet.{Time}
use smart_ids.Traffic.Stats.{Floats}

pub record Statistics (F : Type 0) : Type 0 where
  pub mean : List F → F
  pub pstdev : List F → F
  pub pvariance : List F → F
  pub seconds : Time → F

pub record IatStats (F : Type 0) : Type 0 where
  pub iat_min : F
  pub iat_max : F
  pub iat_mean : F
  pub iat_std : F
  pub iat_total : F

-- `[ordered[i] - ordered[i - 1] for i in range(1, len(ordered))]`, where no difference is negative
-- since the list is in order.
unfoldable pub gaps : List Time → List Time
gaps [] = []
gaps (x ∷ []) = []
gaps (x ∷ y ∷ rest) = (y - x) ∷ gaps (y ∷ rest)

-- `sorted(float(ts) for ts in timestamps)`
unfoldable pub in_order : List Time → List Time
in_order timestamps = sort_by (λ t. t) timestamps

module _ {F : Type 0} ⦃f : Floats F⦄ where
  -- `min(values)` and `max(values)` of a list that starts with `x`.
  unfoldable pub min_of : F → List F → F
  min_of x [] = x
  min_of x (y ∷ ys) = min_of (if f.lt y x then y else x) ys

  unfoldable pub max_of : F → List F → F
  max_of x [] = x
  max_of x (y ∷ ys) = max_of (if f.lt x y then y else x) ys

  unfoldable pub safe_min : List F → F
  unfolding min_of
  safe_min [] = f.of_nat 0
  safe_min (x ∷ xs) = min_of x xs

  unfoldable pub safe_max : List F → F
  unfolding max_of
  safe_max [] = f.of_nat 0
  safe_max (x ∷ xs) = max_of x xs

  unfoldable pub float_sum : F → List F → F
  float_sum total [] = total
  float_sum total (x ∷ xs) = float_sum (f.add total x) xs

  -- `safe_rate`, where a length of time that is not above 0 has no rate.
  unfoldable pub safe_rate : F → Option F → F
  safe_rate value none = f.of_nat 0
  safe_rate value (some duration) =
      if f.lt (f.of_nat 0) duration then f.div value duration else f.of_nat 0

  module _ (statistics : Statistics F) where
    unfoldable pub safe_mean : List F → F
    safe_mean [] = f.of_nat 0
    safe_mean (x ∷ xs) = statistics.mean (x ∷ xs)

    unfoldable pub safe_std : List F → F
    safe_std [] = f.of_nat 0
    safe_std (x ∷ []) = f.of_nat 0
    safe_std (x ∷ y ∷ xs) = statistics.pstdev (x ∷ y ∷ xs)

    unfoldable pub safe_variance : List F → F
    safe_variance [] = f.of_nat 0
    safe_variance (x ∷ []) = f.of_nat 0
    safe_variance (x ∷ y ∷ xs) = statistics.pvariance (x ∷ y ∷ xs)

    unfoldable pub safe_iat_stats : List Time → IatStats F
    unfolding gaps in_order safe_min safe_max safe_mean safe_std float_sum
    safe_iat_stats timestamps =
        let iats = map statistics.seconds (gaps (in_order timestamps)) in
        record {
          iat_min = safe_min iats;
          iat_max = safe_max iats;
          iat_mean = safe_mean iats;
          iat_std = safe_std iats;
          iat_total = float_sum (f.of_nat 0) iats;
        }
