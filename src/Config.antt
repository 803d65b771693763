-- ===== src/Config.antt =====
-- config/app_config.py: the sections of a run's configuration that constrain trading, with their
-- validators. A field's `Any` and paths are types of their own.
pub mod Overrides
pub mod Validate
pub mod Windows
use carcharoth.Base.{
  String, List, Bool, true, false, Option, none, some, not, is_some, ltb, leb, ℕ, ◌&&◌, ◌||◌,
  if◌then◌else◌,
}
use carcharoth.Base.Int.{ℤ, pos, ltb_ℤ, leb_ℤ}
use carcharoth.Base.Dict.{Dict}
use carcharoth.Base.Result.{Error, Result, ok, err, raise_if, ◌>>=◌, ◌>>◌}
use carcharoth.Decision.{DecisionPolicyConfig}

abbrev pub require : Bool → Result (Unit {0})
require test = raise_if (not test) Error.value_error

-- `Field(gt=n)` and `Field(ge=n)`
abbrev pub above : ℤ → ℤ → Result (Unit {0})
above n value = require (ltb_ℤ n value)

abbrev pub at_least : ℤ → ℤ → Result (Unit {0})
at_least n value = require (leb_ℤ n value)

pub record EngineConfig : Type 0 where
  pub tick_interval_seconds : ℤ

unfoldable pub validate_engine : EngineConfig → Result EngineConfig
validate_engine c = do above (pos 0) c.tick_interval_seconds; ok c

pub data CovarianceType : Type 0 where
  diag full : CovarianceType

pub record HmmDetectorConfig (F : Type 0) : Type 0 where
  pub evaluate_interval_minutes : ℤ
  pub n_states : ℤ
  pub training_window : ℤ
  pub refit_interval_bars : ℤ
  pub min_confidence : F
  pub seed : ℤ
  pub n_restarts : ℤ
  pub covariance_type : CovarianceType
  pub n_iter : ℤ
  pub tol : F
  pub min_covar : F
  pub winsorize_sigma : F
  pub vol_window : ℤ
  pub ema_period : ℤ
  pub adx_period : ℤ

-- `ModelHmmConfig`
pub record ModelHmmConfig (F : Type 0) : Type 0 where
  pub detector : HmmDetectorConfig F
  pub enabled : Bool

-- `RegimeFeatureConfig`, with `P` for the values of `params`
pub record RegimeFeatureConfig (F P : Type 0) : Type 0 where
  pub weight : F
  pub params : Dict String P

pub record ScoreDetectorConfig (F P : Type 0) : Type 0 where
  pub evaluate_interval_minutes : ℤ
  pub lookback : ℤ
  pub winsorize_sigma : F
  pub features : Dict String (RegimeFeatureConfig F P)

pub data DetectorKind : Type 0 where
  score hmm : DetectorKind

pub record RegimeConfig (F P : Type 0) : Type 0 where
  pub detector : DetectorKind
  pub score : Option (ScoreDetectorConfig F P)
  pub hmm : Option (HmmDetectorConfig F)

module _ {F P : Type 0} where
  unfoldable pub selected_exists : RegimeConfig F P → DetectorKind → Bool
  selected_exists c DetectorKind.score = is_some c.score
  selected_exists c DetectorKind.hmm = is_some c.hmm

  -- `_selected_detector_exists`
  unfoldable pub validate_regime : RegimeConfig F P → Result (RegimeConfig F P)
  unfolding selected_exists
  validate_regime c = do require (selected_exists c c.detector); ok c

  interval_of :
      DetectorKind → Option (ScoreDetectorConfig F P) → Option (HmmDetectorConfig F) → Result ℤ
  interval_of DetectorKind.score (some s) h = ok s.evaluate_interval_minutes
  interval_of DetectorKind.hmm s (some h) = ok h.evaluate_interval_minutes
  interval_of _ _ _ = err Error.assertion_error

  -- `RegimeConfig.evaluate_interval_minutes`
  unfoldable pub evaluate_interval_minutes : RegimeConfig F P → Result ℤ
  unfolding interval_of
  evaluate_interval_minutes c = interval_of c.detector c.score c.hmm

-- `RegressionTargetConfig` and `ClassificationTargetConfig`
pub data TargetConfig (F : Type 0) : Type 0 where
  regression : (horizon_bars : ℤ) → TargetConfig F
  classification : (horizon_bars : ℤ) (neutral_band : F) → TargetConfig F

-- `FeatureSpecConfig`
pub record FeatureSpecConfig (P : Type 0) : Type 0 where
  pub name : String
  pub params : Dict String P

pub record ModelConfig (F P : Type 0) : Type 0 where
  pub prepared_history : Bool
  pub artifact_path : Option String
  pub timeframe_minutes : ℤ
  pub benchmark_symbol : String
  pub features : List (FeatureSpecConfig P)
  pub target : TargetConfig F
  pub decision : DecisionPolicyConfig F
  pub hmm : ModelHmmConfig F
  pub xgboost_params : Dict String P

pub data EligibilityMode : Type 0 where
  drop strict : EligibilityMode

pub record EligibilityConfig (F : Type 0) : Type 0 where
  pub mode : EligibilityMode
  pub min_train_rows : ℤ
  pub min_validation_rows : ℤ
  pub min_usable_coverage : F
  pub min_symbols : ℤ
  pub min_retained_fraction : F

-- a date is its ordinal
pub record TrainingConfig (F : Type 0) : Type 0 where
  pub train_start : ℕ
  pub train_end : ℕ
  pub validation_start : ℕ
  pub validation_end : ℕ
  pub artifact_root : String
  pub seed : ℤ
  pub early_stopping_rounds : ℤ
  pub eligibility : EligibilityConfig F

pub record BacktestConfig (F P : Type 0) : Type 0 where
  pub check_data_coverage : Bool
  pub initial_capital : F
  pub margin_multiplier : F
  pub spread_pct : F
  pub slippage_pct : F
  pub permutation : Option P

pub record CacheConfig : Type 0 where
  pub enabled : Bool
  pub bars : Bool
  pub hmm : Bool
