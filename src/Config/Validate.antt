-- ===== src/Config/Validate.antt =====
-- config/app_config.py: the bounds of the fields and the model validators.
use carcharoth.Base.{List, [], ◌∷◌, not, ltb, leb}
use carcharoth.Base.Eq.{◌==◌, string_eq}
use carcharoth.Base.Int.{pos, ltb_ℤ}
use carcharoth.Base.Float.{Float, ◌≺◌, ◌≼◌, nought, one}
use carcharoth.Base.Result.{Error, Result, ok, raise_if, ◌>>=◌, ◌>>◌}
use carcharoth.Decision.{validate_config}
use carcharoth.Risk.{RiskConfig}
use carcharoth.Metrics.Summary.{is_nil}
use carcharoth.Config.{
  require, above, at_least, HmmDetectorConfig, TargetConfig, FeatureSpecConfig, ModelConfig,
  EligibilityConfig, TrainingConfig, BacktestConfig,
}

unfoldable pub validate_features : {P : Type 0} → List (FeatureSpecConfig P) → Result (Unit {0})
validate_features [] = ok tt
validate_features (f ∷ fs) = require (not (f.name == "")) >> validate_features fs

module _ {F : Type 0} ⦃num : Float F⦄ where
  -- A bound refuses a value that violates it; a NaN violates none.
  abbrev positive : F → Result (Unit {0})
  positive x = require (not (x ≼ nought))

  abbrev not_negative : F → Result (Unit {0})
  not_negative x = require (not (x ≺ nought))

  abbrev at_most_one : F → Result (Unit {0})
  at_most_one x = require (not (one ≺ x))

  -- `Field(gt=0, le=1)`
  abbrev fraction : F → Result (Unit {0})
  fraction x = positive x >> at_most_one x

  unfoldable pub validate_hmm : HmmDetectorConfig F → Result (HmmDetectorConfig F)
  validate_hmm c = do
    above (pos 0) c.evaluate_interval_minutes
    at_least (pos 4) c.n_states
    above (pos 1) c.training_window
    above (pos 0) c.refit_interval_bars
    not_negative c.min_confidence
    at_most_one c.min_confidence
    above (pos 0) c.n_restarts
    above (pos 0) c.n_iter
    positive c.tol
    positive c.min_covar
    positive c.winsorize_sigma
    above (pos 1) c.vol_window
    above (pos 1) c.ema_period
    above (pos 1) c.adx_period
    ok c

  unfoldable pub validate_target : TargetConfig F → Result (TargetConfig F)
  validate_target (TargetConfig.regression horizon) = do
    above (pos 0) horizon
    ok (TargetConfig.regression horizon)
  validate_target (TargetConfig.classification horizon band) = do
    above (pos 0) horizon
    not_negative band
    ok (TargetConfig.classification horizon band)

  unfoldable pub validate_eligibility : EligibilityConfig F → Result (EligibilityConfig F)
  validate_eligibility c = do
    above (pos 0) c.min_train_rows
    above (pos 0) c.min_validation_rows
    fraction c.min_usable_coverage
    above (pos 0) c.min_symbols
    fraction c.min_retained_fraction
    ok c

  -- the fields, then `_chronological_windows`
  unfoldable pub validate_training : TrainingConfig F → Result (TrainingConfig F)
  unfolding validate_eligibility
  validate_training c = do
    above (pos 0) c.early_stopping_rounds
    validate_eligibility c.eligibility >>= λ _. ok tt
    raise_if (ltb c.train_end c.train_start) Error.value_error
    raise_if (ltb c.validation_end c.validation_start) Error.value_error
    raise_if (leb c.validation_start c.train_end) Error.value_error
    ok c

  unfoldable pub validate_risk : RiskConfig F → Result (RiskConfig F)
  validate_risk c = do
    positive c.max_position_notional
    fraction c.max_position_pct_equity
    fraction c.max_total_exposure_pct
    require (ltb 0 c.max_open_positions)
    fraction c.buying_power_buffer
    not_negative c.slippage_buffer
    fraction c.max_daily_loss_pct
    ok c

  unfoldable pub validate_backtest : {P : Type 0} → BacktestConfig F P → Result (BacktestConfig F P)
  validate_backtest c = do
    positive c.initial_capital
    require (not (c.margin_multiplier ≺ one))
    not_negative c.spread_pct
    not_negative c.slippage_pct
    ok c

  unfoldable pub validate_model_fields : {P : Type 0} → ModelConfig F P → Result (Unit {0})
  unfolding validate_features validate_target validate_config validate_hmm
  validate_model_fields c = do
    above (pos 0) c.timeframe_minutes
    require (not (c.benchmark_symbol == ""))
    require (not (is_nil c.features))
    validate_features c.features
    validate_target c.target >>= λ _. ok tt
    validate_config c.decision >>= λ _. ok tt
    validate_hmm c.hmm.detector >>= λ _. ok tt

  -- `_session_timing`
  unfoldable pub session_timing : {P : Type 0} → ModelConfig F P → Result (ModelConfig F P)
  session_timing c = do
    raise_if (ltb_ℤ c.decision.flatten_minutes c.timeframe_minutes) Error.value_error
    raise_if (ltb_ℤ c.decision.entry_cutoff_minutes c.decision.flatten_minutes) Error.value_error
    ok c

  unfoldable pub validate_model : {P : Type 0} → ModelConfig F P → Result (ModelConfig F P)
  unfolding validate_model_fields session_timing
  validate_model c = validate_model_fields c >> session_timing c
