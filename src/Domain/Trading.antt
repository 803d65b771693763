-- ===== src/Domain/Trading.antt =====
-- Positions, accounts, predictions, intents, decisions and orders of domain/models.py.
use carcharoth.Base.{
  String, List, [], ◌∷◌, Bool, true, false, Option, none, some, ◌&&◌, not, ◌||◌, length, is_some,
  if◌then◌else◌,
}
use carcharoth.Base.Eq.{◌==◌, nat_eq, string_eq}
use carcharoth.Base.Float.{Float, ◌≺◌, nought}
use carcharoth.Base.Dict.{Dict}
use carcharoth.Base.Result.{Error, Result, ok, raise_if, ◌>>◌}
use carcharoth.Domain.Enums.{ModelTask, TargetExposure, Side, OrderStatus}
use carcharoth.Domain.Market.{Time}

pub record Position (F : Type 0) : Type 0 where
  pub symbol : String
  -- positive is long, negative is short
  pub qty : F
  pub avg_entry_price : F
  pub market_value : F
  pub unrealized_pnl : F
  pub current_price : F

module _ {F : Type 0} ⦃num : Float F⦄ where
  -- `Position.exposure`
  unfoldable pub exposure : Position F → TargetExposure
  exposure p =
      if nought ≺ p.qty
      then TargetExposure.long
      else if p.qty ≺ nought
      then TargetExposure.short
      else TargetExposure.flat

  -- `position.exposure if position is not None else TargetExposure.FLAT`
  unfoldable pub current_exposure : Option (Position F) → TargetExposure
  unfolding exposure
  current_exposure none = TargetExposure.flat
  current_exposure (some p) = exposure p

  -- `Position.gross_market_value`
  unfoldable pub gross_market_value : Position F → F
  gross_market_value p = num.abs p.market_value

pub record AccountState (F : Type 0) : Type 0 where
  pub equity : F
  pub cash : F
  pub buying_power : F
  pub last_equity : F
  pub positions : Dict String (Position F)

pub record FeatureVector (F : Type 0) : Type 0 where
  pub names : List String
  pub values : List F
  pub schema_hash : String
  pub as_of : Time

unfoldable pub is_member : String → List String → Bool
is_member a [] = false
is_member a (x ∷ xs) = x == a || is_member a xs

-- `len(set(names)) == len(names)`
unfoldable pub all_distinct : List String → Bool
unfolding is_member
all_distinct [] = true
all_distinct (x ∷ xs) = not (is_member x xs) && all_distinct xs

-- `FeatureVector(names, values, schema_hash, as_of)`
unfoldable pub make_feature_vector :
    {F : Type 0} → List String → List F → String → Time → Result (FeatureVector F)
unfolding all_distinct
make_feature_vector names values schema_hash as_of = do
  raise_if (not (length names == length values)) Error.value_error
  raise_if (not (all_distinct names)) Error.value_error
  ok (record { names = names; values = values; schema_hash = schema_hash; as_of = as_of })

-- `dict(zip(names, values))`, on the distinct names of a feature vector
unfoldable pub zip_names : {F : Type 0} → List String → List F → Dict String F
zip_names (n ∷ ns) (v ∷ vs) = (n, v) ∷ zip_names ns vs
zip_names _ _ = []

-- `FeatureVector.as_dict`
unfoldable pub as_dict : {F : Type 0} → FeatureVector F → Dict String F
unfolding zip_names
as_dict v = zip_names v.names v.values

pub record Prediction (F : Type 0) : Type 0 where
  pub task : ModelTask
  pub expected_return : Option F
  pub probabilities : Dict TargetExposure F

abbrev pub is_regression : ModelTask → Bool
is_regression ModelTask.regression = true
is_regression ModelTask.classification = false

abbrev is_empty {ℓ} : {A : Type ℓ} → List A → Bool
is_empty [] = true
is_empty (_ ∷ _) = false

-- `Prediction(task, expected_return, probabilities)`
unfoldable pub make_prediction :
    {F : Type 0} → ModelTask → Option F → Dict TargetExposure F → Result (Prediction F)
make_prediction task expected_return probabilities = do
  raise_if (is_regression task && not (is_some expected_return)) Error.value_error
  raise_if (not (is_regression task) && is_empty probabilities) Error.value_error
  ok (record { task = task; expected_return = expected_return; probabilities = probabilities })

pub record ExposureIntent (F : Type 0) : Type 0 where
  pub symbol : String
  pub target : TargetExposure
  pub model_id : String
  pub schema_hash : String
  pub reason : String
  pub prediction : Option (Prediction F)
  pub features : Option (FeatureVector F)
  pub timestamp : Option Time

pub record RiskDecision (F : Type 0) : Type 0 where
  pub intent : ExposureIntent F
  pub approved : Bool
  pub qty : F
  pub side : Option Side
  pub reason : String

-- `order_type` and `time_in_force` have one value each
pub record OrderRequest (F : Type 0) : Type 0 where
  pub symbol : String
  pub side : Side
  pub qty : F
  pub client_order_id : Option String

pub record OpenOrder : Type 0 where
  pub broker_order_id : String
  pub symbol : String
  pub side : Side

pub record OrderResult (F : Type 0) : Type 0 where
  pub broker_order_id : String
  pub client_order_id : Option String
  pub symbol : String
  pub side : Side
  pub qty : F
  pub status : OrderStatus
  pub filled_qty : F
  pub filled_avg_price : Option F
  pub submitted_at : Time
  pub filled_at : Option Time
