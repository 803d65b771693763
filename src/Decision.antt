-- ===== src/Decision.antt =====
-- modeling/decision.py: a prediction and a position become a target exposure. The configuration is
-- `DecisionPolicyConfig` of config/app_config.py.
pub mod Safety
pub mod Thresholds
pub mod Classes
pub mod Totality
use Prim.Native.String.{◌++◌}
use carcharoth.Base.{
  ℕ, String, List, [], ◌∷◌, Bool, true, false, Option, none, some, ◌&&◌, ◌||◌, not, is_some,
  or_else, if◌then◌else◌, leb,
}
use carcharoth.Base.Int.{ℤ, pos, ltb_ℤ}
use carcharoth.Base.Float.{Float, ◌≺◌, ◌≼◌, nought, one}
use carcharoth.Base.Format.{Format}
use carcharoth.Base.Dict.{Dict, get}
use carcharoth.Base.Result.{Error, Result, ok, err, raise_if, ◌>>=◌, ◌>>◌}
use carcharoth.Domain.{
  TargetExposure, ModelTask, is_regression, same_exposure, exposure_eq, Prediction, Position,
  current_exposure, Time,
}
use carcharoth.Session.{MarketZone, minutes_since_open, minutes_until_close}

pub record DecisionPolicyConfig (F : Type 0) : Type 0 where
  pub long_entry_threshold : F
  pub short_entry_threshold : F
  pub long_exit_threshold : F
  pub short_exit_threshold : F
  pub class_probability_threshold : F
  pub entry_delay_minutes : ℤ
  pub entry_cutoff_minutes : ℤ
  pub flatten_minutes : ℤ

-- `TargetExposure.value`
abbrev pub exposure_value : TargetExposure → String
exposure_value TargetExposure.long = "long"
exposure_value TargetExposure.short = "short"
exposure_value TargetExposure.flat = "flat"
exposure_value TargetExposure.unchanged = "unchanged"

-- `target in {TargetExposure.LONG, TargetExposure.SHORT}`
abbrev pub is_directional : TargetExposure → Bool
is_directional TargetExposure.long = true
is_directional TargetExposure.short = true
is_directional _ = false

module _ {F : Type 0} ⦃num : Float F⦄ where
  -- The bounds of the fields, then `_threshold_order`. A bound refuses a value that violates it; a
  -- NaN violates none.
  unfoldable pub validate_config : DecisionPolicyConfig F → Result (DecisionPolicyConfig F)
  validate_config c = do
    raise_if (c.long_entry_threshold ≺ nought) Error.value_error
    raise_if (nought ≺ c.short_entry_threshold) Error.value_error
    raise_if (c.class_probability_threshold ≼ nought) Error.value_error
    raise_if (one ≺ c.class_probability_threshold) Error.value_error
    raise_if (ltb_ℤ c.entry_delay_minutes (pos 0)) Error.value_error
    raise_if (ltb_ℤ c.entry_cutoff_minutes (pos 0)) Error.value_error
    raise_if (not (ltb_ℤ (pos 0) c.flatten_minutes)) Error.value_error
    raise_if (c.long_entry_threshold ≺ c.long_exit_threshold) Error.value_error
    raise_if (c.short_exit_threshold ≺ c.short_entry_threshold) Error.value_error
    raise_if (ltb_ℤ c.flatten_minutes (pos 5)) Error.value_error
    ok c

  -- `_regression`, once the expected return is known to be there
  unfoldable pub regression_target : DecisionPolicyConfig F → F → TargetExposure → TargetExposure
  regression_target config value TargetExposure.long =
      if config.long_exit_threshold ≼ value
      then TargetExposure.long
      else if value ≼ config.short_entry_threshold
      then TargetExposure.short
      else TargetExposure.flat
  regression_target config value TargetExposure.short =
      if value ≼ config.short_exit_threshold
      then TargetExposure.short
      else if config.long_entry_threshold ≼ value
      then TargetExposure.long
      else TargetExposure.flat
  regression_target config value _ =
      if config.long_entry_threshold ≼ value
      then TargetExposure.long
      else if value ≼ config.short_entry_threshold
      then TargetExposure.short
      else TargetExposure.flat

  -- `DecisionPolicy._regression`; `none` fails the `assert`
  unfoldable pub regression :
      DecisionPolicyConfig F → Prediction F → TargetExposure → Result TargetExposure
  unfolding regression_target
  regression config prediction current = elim prediction.expected_return [
    | none ↦ err Error.assertion_error
    | some value ↦ ok (regression_target config value current)
  ]

  -- `max(items, key=...)` over the items after the first: the first of the largest is kept
  unfoldable pub largest : TargetExposure × F → Dict TargetExposure F → TargetExposure × F
  largest best [] = best
  largest best (item ∷ rest) = largest (if best.1 ≺ item.1 then item else best) rest

  -- `DecisionPolicy._classification`; `max` raises on an empty dict
  unfoldable pub classification :
      DecisionPolicyConfig F → Dict TargetExposure F → Result TargetExposure
  unfolding largest
  classification config [] = err Error.value_error
  classification config (item ∷ rest) =
      let (target, probability) = largest item rest in
      ok (if probability ≺ config.class_probability_threshold then TargetExposure.flat else target)

  -- the target of the model for the task
  unfoldable pub model_target :
      DecisionPolicyConfig F → Prediction F → TargetExposure → Result TargetExposure
  unfolding regression classification
  model_target config prediction current =
      if is_regression prediction.task
      then regression config prediction current
      else classification config prediction.probabilities

  -- `entries_allowed`
  unfoldable pub entries_allowed : DecisionPolicyConfig F → F → F → Bool
  entries_allowed config minutes_since_session_open minutes_to_session_close =
      num.of_int config.entry_delay_minutes ≼ minutes_since_session_open
      && num.of_int config.entry_cutoff_minutes ≺ minutes_to_session_close

  module _ ⦃fmt : Format F⦄ where
    -- `DecisionPolicy._reason`
    unfoldable pub decision_reason : Prediction F → TargetExposure → String
    unfolding get
    decision_reason prediction target = elim prediction.expected_return [
      | some r ↦ "expected_return=" ++ fmt.fixed 6 r ++ " -> " ++ exposure_value target
      | none ↦
          "class="
          ++ exposure_value target
          ++ " probability="
          ++ fmt.fixed 4 (or_else (get prediction.probabilities target) nought)
    ]

    -- what `decide` makes of the model's target, given whether entries are allowed
    unfoldable pub gate_entry :
        Prediction F → TargetExposure → Bool → TargetExposure → TargetExposure × String
    unfolding decision_reason
    gate_entry prediction current entries_allowed target =
        if same_exposure current TargetExposure.flat && is_directional target
        then if not entries_allowed
          then (TargetExposure.flat, "entry blocked by session window")
          else (target, decision_reason prediction target)
        else if is_directional current
            && not (same_exposure target current || same_exposure target TargetExposure.flat)
            && not entries_allowed
        then (TargetExposure.flat, "opposite entry blocked; close before session end")
        else (target, decision_reason prediction target)

    -- `DecisionPolicy.decide`
    unfoldable pub decide :
        DecisionPolicyConfig F
        → Prediction F
        → Option (Position F)
        → F
        → F
        → Result (TargetExposure × String)
    unfolding model_target gate_entry entries_allowed current_exposure
    decide config prediction position since_open to_close =
        if is_some position && to_close ≼ num.of_int config.flatten_minutes
        then ok (TargetExposure.flat, "mandatory end-of-day flatten")
        else do
          let current = current_exposure position
          target ← model_target config prediction current
          ok (gate_entry prediction current (entries_allowed config since_open to_close) target)

    -- `DecisionPolicy.decide_at_timestamp`
    unfoldable pub decide_at_timestamp :
        ⦃zone : MarketZone⦄
        → DecisionPolicyConfig F
        → Prediction F
        → Option (Position F)
        → Time
        → Result (TargetExposure × String)
    unfolding decide minutes_since_open minutes_until_close
    decide_at_timestamp config prediction position timestamp =
        decide config prediction position (minutes_since_open timestamp)
          (minutes_until_close timestamp)
