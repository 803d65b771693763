-- ===== src/Metrics/Objective.antt =====
-- analysis/objective.py: the fitness of a run, with `ObjectiveConfig` of config/app_config.py.
use carcharoth.Base.{
  String, List, [], ◌∷◌, ◌++◌, Option, none, some, not, keep, is_some, if◌then◌else◌,
}
use Prim.Native.String.{◌++◌ as join}
use carcharoth.Base.Eq.{string_eq}
use carcharoth.Base.Float.{Float, ◌⊗◌}
use carcharoth.Base.Dict.{Dict, get, put, keys}
use carcharoth.Base.Result.{Error, Result, ok, err}
use carcharoth.Domain.{MetricValue}
use carcharoth.Metrics.Summary.{is_nil}

-- `on_missing_metric`
pub data MissingPolicy : Type 0 where
  penalize zero fail : MissingPolicy

pub record ObjectiveConfig (F : Type 0) : Type 0 where
  pub weights : Dict String F
  pub on_missing_metric : MissingPolicy
  pub penalty_score : F

-- `fitness_metric_name`
unfoldable pub fitness_metric_name : String → String
fitness_metric_name objective_name = join "fitness_" objective_name

module _ {F : Type 0} where
  -- `by_name`: the last of equal names counts
  unfoldable pub portfolio_values : Dict String F → List (MetricValue F) → Dict String F
  portfolio_values values [] = values
  portfolio_values values (m ∷ ms) =
      portfolio_values (if is_some m.symbol then values else put values m.name m.value) ms

  -- the weighted names that are not among the metrics
  unfoldable pub missing_names : Dict String F → Dict String F → List String
  unfolding keep
  missing_names weights values = keep (λ name. not (is_some (get values name))) (keys weights)

  abbrev pub product_of : ⦃num : Float F⦄ → Option F → F → List F
  product_of none weight = []
  product_of (some value) weight = weight ⊗ value ∷ []

  unfoldable pub weighted : ⦃num : Float F⦄ → Dict String F → Dict String F → List F
  weighted values [] = []
  weighted values ((name, weight) ∷ weights) =
      product_of (get values name) weight ++ weighted values weights

  unfoldable pub score_present : ⦃num : Float F⦄ → Dict String F → ObjectiveConfig F → F
  unfolding weighted
  score_present ⦃num⦄ values objective = num.total (weighted values objective.weights)

  unfoldable pub score_missing :
      ⦃num : Float F⦄ → Dict String F → ObjectiveConfig F → MissingPolicy → Result F
  unfolding score_present
  score_missing values objective MissingPolicy.fail = err Error.value_error
  score_missing values objective MissingPolicy.penalize = ok objective.penalty_score
  score_missing values objective MissingPolicy.zero = ok (score_present values objective)

  -- `score_metrics`
  unfoldable pub score_metrics :
      ⦃num : Float F⦄ → List (MetricValue F) → ObjectiveConfig F → Result F
  unfolding portfolio_values missing_names score_missing score_present
  score_metrics metrics objective =
      let values = portfolio_values [] metrics in
      if is_nil (missing_names objective.weights values)
      then ok (score_present values objective)
      else score_missing values objective objective.on_missing_metric
