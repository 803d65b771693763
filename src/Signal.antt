-- ===== src/Signal.antt =====
-- modeling/signal_generator.py and `_PreparedHistory` of features/pipeline.py: from market history to
-- a target exposure.
pub mod Once
pub mod Entries
use carcharoth.Base.{
  ℕ, String, List, [], ◌∷◌, Bool, true, false, Option, none, some, ◌&&◌, ltb, is_some, or_else, not,
  last?, get_elem?, if◌then◌else◌,
}
use carcharoth.Base.Eq.{◌==◌, nat_eq, string_eq}
use carcharoth.Base.Float.{Float, ◌≼◌}
use carcharoth.Base.Format.{Format}
use carcharoth.Base.Dict.{Dict, get, put}
use carcharoth.Base.Sort.{dedupe}
use carcharoth.Base.Result.{Error, Result, ok, err, ◌>>=◌, raise_if}
use carcharoth.Domain.{
  Time, Bar, BarSpec, MarketSnapshot, MarketDataRequirements, Position, FeatureVector,
  make_feature_vector, Prediction, ExposureIntent, TargetExposure,
}
use carcharoth.Session.{MarketZone, minutes_until_close}
use carcharoth.Decision.{DecisionPolicyConfig, decide_at_timestamp}

-- `_PreparedHistory`
pub record PreparedHistory (F : Type 0) : Type 0 where
  pub rows : Dict Time ℕ
  pub matrix : List (List F)
  pub names : List String
  pub schema_hash : String

-- What the generator is built from: the feature pipeline, whose detectors keep a state `W`, the
-- predictor, the manifest's id and the policy's configuration.
pub record Model (F W : Type 0) : Type 0 where
  pub model_id : String
  pub schema_hash : String
  pub benchmark_symbol : String
  pub required_bars : BarSpec
  pub compute : List (Bar F) → List (Bar F) → W → Result (Option (FeatureVector F)) × W
  pub prepare : List (Bar F) → List (Bar F) → Time → Time → W → Result (PreparedHistory F) × W
  pub predict : FeatureVector F → Result (Prediction F)
  pub decision : DecisionPolicyConfig F
  -- `np.isfinite`
  pub is_finite : F → Bool

-- The attributes of `XGBoostSignalGenerator` that change, and the state of the pipeline.
pub record Generator (F W : Type 0) : Type 0 where
  pub last_attempt : Dict String Time
  pub prepared : Option (Dict String (PreparedHistory F))
  pub features : W

-- `__init__`
unfoldable pub new_generator : {F W : Type 0} → W → Generator F W
new_generator w = record { last_attempt = []; prepared = none; features = w }

unfoldable pub all_finite : {F : Type 0} → (F → Bool) → List F → Bool
all_finite is_finite [] = true
all_finite is_finite (x ∷ xs) = is_finite x && all_finite is_finite xs

abbrev to_some : {A : Type 0} → Result A → Result (Option A)
to_some (ok a) = ok (some a)
to_some (err e) = err e

-- one row of `_PreparedHistory.lookup`
unfoldable pub row_vector :
    {F : Type 0}
    → (F → Bool)
    → PreparedHistory F
    → Time
    → Option (List F)
    → Result (Option (FeatureVector F))
unfolding all_finite make_feature_vector
row_vector is_finite table timestamp none = err Error.other
row_vector is_finite table timestamp (some row) =
    if all_finite is_finite row
    then to_some (make_feature_vector table.names row table.schema_hash timestamp)
    else ok none

-- `_PreparedHistory.lookup`
unfoldable pub lookup :
    {F : Type 0} → (F → Bool) → PreparedHistory F → Time → Result (Option (FeatureVector F))
unfolding row_vector
lookup is_finite table timestamp = elim (get table.rows timestamp) [
  | none ↦ ok none
  | some index ↦ row_vector is_finite table timestamp (get_elem? table.matrix index)
]

abbrev pub is_at : Option Time → Time → Bool
is_at none bar_time = false
is_at (some t) bar_time = t == bar_time

-- `self._last_attempt.get(symbol) == bar_time`
unfoldable pub attempted : {F W : Type 0} → Generator F W → String → Time → Bool
attempted g symbol bar_time = is_at (get g.last_attempt symbol) bar_time

module _ {F W : Type 0} (model : Model F W) where
  -- `_unchanged`
  unfoldable pub unchanged : String → Time → String → ExposureIntent F
  unchanged symbol timestamp reason = record {
    symbol = symbol;
    target = TargetExposure.unchanged;
    model_id = model.model_id;
    schema_hash = model.schema_hash;
    reason = reason;
    prediction = none;
    features = none;
    timestamp = some timestamp;
  }

  -- the intent of the session safety
  unfoldable pub flatten : String → Time → ExposureIntent F
  flatten symbol timestamp = record {
    symbol = symbol;
    target = TargetExposure.flat;
    model_id = model.model_id;
    schema_hash = model.schema_hash;
    reason = "mandatory end-of-day flatten";
    prediction = none;
    features = none;
    timestamp = some timestamp;
  }

  -- the intent of a prediction
  unfoldable pub predicted :
      String → FeatureVector F → Prediction F → TargetExposure → String → Time → ExposureIntent F
  predicted symbol vector prediction target reason timestamp = record {
    symbol = symbol;
    target = target;
    model_id = model.model_id;
    schema_hash = vector.schema_hash;
    reason = reason;
    prediction = some prediction;
    features = some vector;
    timestamp = some timestamp;
  }

  -- the loop of `prepare_history` over the symbols
  unfoldable pub prepare_all :
      Dict String (List (Bar F))
      → Time
      → Time
      → List String
      → W
      → Result (Dict String (PreparedHistory F)) × W
  prepare_all bars start end_exclusive [] w = (ok [], w)
  prepare_all bars start end_exclusive (symbol ∷ symbols) w =
      let (table, w1) =
        model.prepare (or_else (get bars symbol) []) (or_else (get bars model.benchmark_symbol) [])
          start end_exclusive w in
      let (rest, w2) = prepare_all bars start end_exclusive symbols w1 in
      elim table [ err e ↦ (err e, w1) | ok t ↦ (rest >>= λ tables. ok ((symbol, t) ∷ tables), w2) ]

  keep_tables :
      Generator F W
      → Result (Dict String (PreparedHistory F))
      → W
      → Result (Unit {0}) × Generator F W
  keep_tables g (err e) w = (err e, record g { features = w })
  keep_tables g (ok tables) w =
      (ok tt, record { last_attempt = []; prepared = some tables; features = w })

  -- `prepare_history`; every `Time` is aware
  unfoldable pub prepare_history :
      Dict String (List (Bar F))
      → List String
      → Time
      → Time
      → Generator F W
      → Result (Unit {0}) × Generator F W
  unfolding prepare_all keep_tables dedupe
  prepare_history bars symbols start end_exclusive g =
      if ltb end_exclusive start
      then (err Error.value_error, g)
      else let (tables, w) = prepare_all bars start end_exclusive (dedupe symbols) g.features in
        keep_tables g tables w

  -- `market_requirements`
  unfoldable pub market_requirements : MarketDataRequirements
  market_requirements = record {
    bars = model.required_bars;
    context_symbols = model.benchmark_symbol ∷ [];
  }

  -- `bars[-1].timestamp if bars else snapshot.as_of`
  unfoldable pub safety_time : MarketSnapshot F → Option (Bar F) → Time
  safety_time snapshot none = snapshot.as_of
  safety_time snapshot (some bar) = bar.timestamp

  -- the row of the prepared table, where the symbol has one
  unfoldable pub table_features :
      Time → Option (PreparedHistory F) → Result (Option (FeatureVector F))
  unfolding lookup
  table_features bar_time none = ok none
  table_features bar_time (some table) = lookup model.is_finite table bar_time

  -- the features, given `self._prepared`
  unfoldable pub features_from :
      String
      → MarketSnapshot F
      → List (Bar F)
      → Time
      → Option (Dict String (PreparedHistory F))
      → Generator F W
      → Result (Option (FeatureVector F)) × Generator F W
  unfolding table_features
  features_from symbol snapshot bars bar_time none g =
      let benchmark = or_else (get snapshot.bars model.benchmark_symbol) [] in
      let (features, w) = model.compute bars benchmark g.features in
      (features, record g { features = w })
  features_from symbol snapshot bars bar_time (some tables) g =
      (table_features bar_time (get tables symbol), g)

  unfoldable pub latest_features :
      String
      → MarketSnapshot F
      → List (Bar F)
      → Time
      → Generator F W
      → Result (Option (FeatureVector F)) × Generator F W
  unfolding features_from
  latest_features symbol snapshot bars bar_time g =
      features_from symbol snapshot bars bar_time g.prepared g

  module _ ⦃num : Float F⦄ ⦃fmt : Format F⦄ ⦃zone : MarketZone⦄ where
    -- the `try` around the prediction and the policy
    unfoldable pub predict_and_decide :
        String → FeatureVector F → Option (Position F) → Time → Result (ExposureIntent F)
    unfolding decide_at_timestamp predicted
    predict_and_decide symbol vector position bar_time = do
      prediction ← model.predict vector
      (target, reason) ← decide_at_timestamp model.decision prediction position bar_time
      ok (predicted symbol vector prediction target reason bar_time)

    -- `except Exception`
    unfoldable pub intent_or_unchanged :
        String → Time → Result (ExposureIntent F) → ExposureIntent F
    unfolding unchanged
    intent_or_unchanged symbol bar_time (ok intent) = intent
    intent_or_unchanged symbol bar_time (err e) =
        unchanged symbol bar_time "model prediction failed"

    -- what follows once the features are there, or are not
    unfoldable pub from_features :
        String → Option (Position F) → Time → Option (FeatureVector F) → ExposureIntent F
    unfolding intent_or_unchanged predict_and_decide unchanged
    from_features symbol position bar_time none =
        unchanged symbol bar_time "features warming up or unavailable"
    from_features symbol position bar_time (some vector) =
        intent_or_unchanged symbol bar_time (predict_and_decide symbol vector position bar_time)

    -- the evaluation of a new bar
    unfoldable pub evaluate :
        String
        → MarketSnapshot F
        → Option (Position F)
        → List (Bar F)
        → Time
        → Generator F W
        → Result (ExposureIntent F) × Generator F W
    unfolding latest_features from_features
    evaluate symbol snapshot position bars bar_time g =
        let (features, g') =
          latest_features symbol snapshot bars bar_time
            (record g { last_attempt = put g.last_attempt symbol bar_time }) in
        (features >>= λ vector. ok (from_features symbol position bar_time vector), g')

    -- what follows the session safety
    unfoldable pub generate_at :
        String
        → MarketSnapshot F
        → Option (Position F)
        → List (Bar F)
        → Option (Bar F)
        → Generator F W
        → Result (ExposureIntent F) × Generator F W
    unfolding unchanged attempted evaluate
    generate_at symbol snapshot position bars none g =
        (ok (unchanged symbol snapshot.as_of "no completed bars"), g)
    generate_at symbol snapshot position bars (some latest) g =
        if attempted g symbol latest.timestamp
        then (ok (unchanged symbol latest.timestamp "bar already evaluated"), g)
        else evaluate symbol snapshot position bars latest.timestamp g

    -- `position is not None and minutes_until_close(...) <= flatten_minutes`
    unfoldable pub must_flatten : Option (Position F) → Time → Bool
    unfolding minutes_until_close
    must_flatten position time =
        is_some position && minutes_until_close time ≼ num.of_int model.decision.flatten_minutes

    unfoldable pub generate :
        String
        → MarketSnapshot F
        → Option (Position F)
        → Generator F W
        → Result (ExposureIntent F) × Generator F W
    unfolding safety_time must_flatten flatten generate_at
    generate symbol snapshot position g =
        let bars = or_else (get snapshot.bars symbol) [] in
        let time = safety_time snapshot (last? bars) in
        if must_flatten position time
        then (ok (flatten symbol time), g)
        else generate_at symbol snapshot position bars (last? bars) g
