-- ===== src/Traffic/Stats.antt =====
-- traffic_engine/session_builder/running_stats.py over any type of numbers.
use smart_ids.Base.{ℕ, ◌+◌, Bool, Option, none, some, if◌then◌else◌, ltb}

-- What the program uses of Python's `float`.
pub record Floats (F : Type 0) : Type 0 where
  pub of_nat : ℕ → F
  pub add : F → F → F
  pub sub : F → F → F
  pub mul : F → F → F
  pub div : F → F → F
  pub lt : F → F → Bool
  pub sqrt : F → F

pub record RunningStats (F : Type 0) : Type 0 where
  pub count : ℕ
  pub mean : F
  pub m2 : F
  pub min : Option F
  pub max : Option F

module _ {F : Type 0} ⦃f : Floats F⦄ where
  unfoldable pub init : RunningStats F
  init = record { count = 0; mean = f.of_nat 0; m2 = f.of_nat 0; min = none; max = none }

  abbrev pub lower : F → Option F → F
  lower value none = value
  lower value (some m) = if f.lt value m then value else m

  abbrev pub higher : F → Option F → F
  higher value none = value
  higher value (some m) = if f.lt m value then value else m

  unfoldable pub update : RunningStats F → F → RunningStats F
  update s value =
      let count = s.count + 1 in
      let delta = f.sub value s.mean in
      let mean = f.add s.mean (f.div delta (f.of_nat count)) in
      let delta2 = f.sub value mean in
      record {
        count = count;
        mean = mean;
        m2 = f.add s.m2 (f.mul delta delta2);
        min = some (lower value s.min);
        max = some (higher value s.max);
      }

  unfoldable pub get_min : RunningStats F → F
  get_min s = elim s.min [ none ↦ f.of_nat 0 | some m ↦ m ]

  unfoldable pub get_max : RunningStats F → F
  get_max s = elim s.max [ none ↦ f.of_nat 0 | some m ↦ m ]

  unfoldable pub get_mean : RunningStats F → F
  get_mean s = elim s.count [ ℕ.zero ↦ f.of_nat 0 | ℕ.suc n ↦ s.mean ]

  unfoldable pub variance : RunningStats F → F
  variance s = if ltb s.count 2 then f.of_nat 0 else f.div s.m2 (f.of_nat s.count)

  unfoldable pub std : RunningStats F → F
  unfolding variance
  std s = f.sqrt (variance s)
