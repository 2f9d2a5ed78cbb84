-- ===== src/Forwarding/Contracts/Ranges.antt =====
-- The scores that events carry.
use smart_ids.Base.{
  string_eq, ◌==◌, ℕ, ◌≡◌, refl, true, false, Option, none, some, String, Bool-cases, inl, inr,
}
use smart_ids.Traffic.Stats.{Floats}
use smart_ids.Forwarding.Contracts.{
  Scores, Prediction, is_normal, larger, smaller, ml_score, severity_from_prediction, risk_score,
  high_confidence,
}
use smart_ids.Processor.Respond.{should_alert}
use smart_ids.Processor.Shadow.{shadow_severity}

module _ {F : Type 0} ⦃f : Floats F⦄ (scores : Scores F) where
  -- Three functions judge a prediction, each with its own copy of the label, and agree: the severity
  -- of an event is "high" exactly when the processor raises an alert on the same prediction, although
  -- the threshold of the one is a literal and that of the other a field, and "low" exactly when the
  -- label is "Normal Traffic"; and the severity of an event of the secondary model is the one that
  -- an event of the primary model with the same label and confidence would have.
  pub severity-should_alert :
      (prediction : Prediction F)
      → ((severity_from_prediction scores prediction.label prediction.confidence == "high")
          ≡ should_alert scores prediction)
        × ((severity_from_prediction scores prediction.label prediction.confidence == "low")
            ≡ (prediction.label == "Normal Traffic"))
        × (shadow_severity scores prediction.label prediction.confidence
            ≡ severity_from_prediction scores prediction.label prediction.confidence)
  unfolding severity_from_prediction should_alert shadow_severity
  severity-should_alert prediction = elim (Bool-cases (prediction.label == "Normal Traffic")) [
    | inl e ↦ rw (severity_from_prediction, should_alert, shadow_severity, e) (refl, refl, refl)
    | inr e ↦ elim (Bool-cases (scores.at_least prediction.confidence high_confidence)) [
      | inl g ↦
          rw (severity_from_prediction, should_alert, shadow_severity, e, g) (refl, refl, refl)
      | inr g ↦
          rw (severity_from_prediction, should_alert, shadow_severity, e, g) (refl, refl, refl)
    ]
  ]

  -- No score above 1 and none below 0.
  abbrev pub InUnit : F → Type 0
  InUnit x = (f.lt (f.of_nat 1) x ≡ false) × (f.lt x (f.of_nat 0) ≡ false)

  larger-InUnit : (a b : F) → InUnit a → InUnit b → InUnit (larger a b)
  larger-InUnit a b h k = elim (Bool-cases (f.lt a b)) [ inl e ↦ rw e k | inr e ↦ rw e h ]

  -- What the bounds rest on: no number is below another and above it, 0 is below 1, and rounding
  -- keeps a number that lies between 0 and 1 there.
  pub record IsOrdered : Type 0 where
    pub asymmetric : (a b : F) → f.lt a b ≡ true → f.lt b a ≡ false
    pub irreflexive : (a : F) → f.lt a a ≡ false
    pub zero_one : f.lt (f.of_nat 0) (f.of_nat 1) ≡ true
    pub rounded : (a : F) → InUnit a → InUnit (scores.round_4 a)

  module _ (ordered : IsOrdered) where
    one-InUnit : InUnit (f.of_nat 1)
    one-InUnit = (ordered.irreflexive (f.of_nat 1), ordered.asymmetric _ _ ordered.zero_one)

    zero-InUnit : InUnit (f.of_nat 0)
    zero-InUnit = (ordered.asymmetric _ _ ordered.zero_one, ordered.irreflexive (f.of_nat 0))

    larger-zero : (a : F) → f.lt (larger (f.of_nat 0) a) (f.of_nat 0) ≡ false
    larger-zero a = elim (Bool-cases (f.lt (f.of_nat 0) a)) [
      | inl e ↦ rw e (ordered.asymmetric _ _ e)
      | inr e ↦ rw e (ordered.irreflexive (f.of_nat 0))
    ]

    smaller-InUnit : (a : F) → f.lt a (f.of_nat 0) ≡ false → InUnit (smaller (f.of_nat 1) a)
    smaller-InUnit a h = elim (Bool-cases (f.lt a (f.of_nat 1))) [
      | inl e ↦ rw e (ordered.asymmetric a (f.of_nat 1) e, h)
      | inr e ↦ rw e one-InUnit
    ]

    ml_score-InUnit :
        (label : Option String) (confidence : F)
        → InUnit confidence
        → InUnit (ml_score label confidence)
    ml_score-InUnit none confidence h = zero-InUnit
    ml_score-InUnit (some label) confidence h = elim (Bool-cases (is_normal label)) [
      | inl e ↦ rw e zero-InUnit
      | inr e ↦ rw e h
    ]

    -- A risk score lies between 0 and 1 where the confidence does, whatever the label and however
    -- high the heuristic score.
    pub risk_score-InUnit :
        (label : Option String) (confidence : F) (heuristic_score : ℕ)
        → InUnit confidence
        → InUnit (risk_score scores label confidence heuristic_score)
    unfolding risk_score
    risk_score-InUnit label confidence heuristic_score h = ordered.rounded _ (
        larger-InUnit (ml_score label confidence) _ (ml_score-InUnit label confidence h)
          (smaller-InUnit _ (larger-zero _)))
