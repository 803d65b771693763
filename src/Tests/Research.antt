-- ===== src/Tests/Research.antt =====
-- The signal generator, the simulator, the matching of trades and the configuration on small inputs.
use carcharoth.Base.{
  ℕ, String, List, [], ◌∷◌, true, false, none, some, ◌≡◌, ◌⊎◌, refl, map, keep, last?, or_else,
  arith, suc, ◌+◌,
}
use carcharoth.Base.Eq.{string_eq}
use carcharoth.Base.Int.{ℤ, pos, negsuc, leb_ℤ, ◌-ℤ◌}
use carcharoth.Base.Float.{◌≼◌, ◌≺◌}
use carcharoth.Base.Float.Whole.{whole, whole-IsFloat}
use carcharoth.Base.Dict.{get}
use carcharoth.Base.Result.{Result, ok, err}
use carcharoth.Domain.{
  Bar, MarketSnapshot, ExposureIntent, TargetExposure, FeatureVector, ModelTask, Side, TradeRecord,
  TimeframeUnit, current_exposure,
}
use carcharoth.Session.{minutes_of}
use carcharoth.Decision.{DecisionPolicyConfig, entries_allowed}
use carcharoth.Signal.{Model, Generator, generate, safety_time}
use carcharoth.Signal.Entries.{IsEntry, Opens, generate-Opens}
use carcharoth.Quicktest.{Run, SymbolResult, simulate_symbol, is_simulated}
use carcharoth.Quicktest.Ahead.{longer, simulate_symbol_looks_back}
use carcharoth.Quicktest.Replay.{Continues, simulate_symbol_samples, time_of, bar_time}
use carcharoth.Metrics.Matching.{Queues, RoundTrip, match_round_trips, lots_of}
use carcharoth.Metrics.Matching.Loop.{IsSubtraction}
use carcharoth.Metrics.Matching.OneSided.{match_round_trips_one_sided}
use carcharoth.Metrics.Summary.{max_drawdown}
use carcharoth.Metrics.Drawdown.{IsFall, Falls, max_drawdown-Falls}
use carcharoth.Config.{ModelConfig, TargetConfig, CovarianceType}
use carcharoth.Config.Validate.{validate_model}
use carcharoth.Config.Windows.{entries_allowed_clear}
use carcharoth.Tests.Setting.{utc, plain, ten, bar, intent}

abbrev policy : DecisionPolicyConfig ℤ
policy = record {
  long_entry_threshold = pos 2;
  short_entry_threshold = negsuc 1;
  long_exit_threshold = pos 0;
  short_exit_threshold = pos 0;
  class_probability_threshold = pos 1;
  entry_delay_minutes = pos 15;
  entry_cutoff_minutes = pos 15;
  flatten_minutes = pos 10;
}

abbrev vector : FeatureVector ℤ
vector = record { names = "f" ∷ []; values = pos 1 ∷ []; schema_hash = "h"; as_of = ten }

-- it counts the rows that were computed
abbrev model : Model ℤ ℕ
model = record {
  model_id = "m";
  schema_hash = "h";
  benchmark_symbol = "SPY";
  required_bars = record {
    timeframe = record { amount = pos 5; unit = TimeframeUnit.minute };
    lookback = pos 2;
  };
  compute = λ bars benchmark n. (ok (some vector), suc n);
  prepare = λ bars benchmark start end_exclusive n.
      (ok (record { rows = []; matrix = []; names = []; schema_hash = "h" }), n);
  predict = λ features.
      ok (record {
        task = ModelTask.regression;
        expected_return = some (pos 5);
        probabilities = [];
      });
  decision = policy;
  is_finite = λ x. true;
}

abbrev snapshot : MarketSnapshot ℤ
snapshot = record { bars = ("A", bar ten 10 ∷ []) ∷ []; quotes = []; as_of = ten }

abbrev fresh : Generator ℤ ℕ
fresh = record { last_attempt = []; prepared = none; features = 0 }

-- the intent of an answer
abbrev answered : Result (ExposureIntent ℤ) → ExposureIntent ℤ
answered (ok i) = i
answered (err e) = intent TargetExposure.flat

whole-IsSubtraction : IsSubtraction ℤ
unfolding ◌-ℤ◌
whole-IsSubtraction = record {
  sub-self = λ x. ground arith;
  sub-used = λ x r h k. ground arith;
  sub-left = λ x y r h k l. ground arith;
}

abbrev trade : Side → ℕ → ℕ → TradeRecord ℤ
trade side qty t = record {
  symbol = "A";
  side = side;
  qty = pos qty;
  price = pos 10;
  timestamp = t;
}

match_round_trips_one_sided_example :
    (q : Queues ℤ) × (trips : List (RoundTrip ℤ)) × (match_round_trips
        (trade Side.buy 2 1 ∷ trade Side.sell 5 2 ∷ [])
        []
      ≡ some (q, trips))
    × ((symbol : String) → (lots_of q.longs symbol ≡ []) ⊎ (lots_of q.shorts symbol ≡ []))
match_round_trips_one_sided_example =
    match_round_trips_one_sided whole-IsSubtraction (trade Side.buy 2 1 ∷ trade Side.sell 5 2 ∷ [])
      []

-- the numbers of `Whole` are in the order of the integers
of_int_mono : (m n : ℤ) → leb_ℤ m n ≡ true → whole.of_int m ≼ whole.of_int n ≡ true
of_int_mono m n h = h

abbrev config : ModelConfig ℤ ℕ
config = record {
  prepared_history = false;
  artifact_path = none;
  timeframe_minutes = pos 5;
  benchmark_symbol = "SPY";
  features = record { name = "f"; params = [] } ∷ [];
  target = TargetConfig.regression (pos 5);
  decision = policy;
  hmm = record {
    enabled = true;
    detector = record {
      evaluate_interval_minutes = pos 30;
      n_states = pos 4;
      training_window = pos 1560;
      refit_interval_bars = pos 78;
      min_confidence = pos 1;
      seed = pos 42;
      n_restarts = pos 2;
      covariance_type = CovarianceType.diag;
      n_iter = pos 100;
      tol = pos 1;
      min_covar = pos 1;
      winsorize_sigma = pos 5;
      vol_window = pos 20;
      ema_period = pos 50;
      adx_period = pos 14;
    };
  };
  xgboost_params = [];
}

config_valid : validate_model config ≡ ok config
unfolding validate_model
config_valid = refl

entries_allowed_clear_example : pos 100 ≼ pos 10 ≡ false
entries_allowed_clear_example =
    entries_allowed_clear whole-IsFloat of_int_mono config (pos 30) (pos 100) config_valid
      (unfold entries_allowed in refl)

-- it goes long whenever it is asked
abbrev run : Run ℤ ℕ
run = record {
  symbol = "A";
  generate = λ symbol snapshot position n. (ok (intent TargetExposure.long), suc n);
  lookback = 2;
  context_symbol = "SPY";
  benchmark = [];
  start = 0;
  end_exclusive = 86_400_000_000;
  settings = record {
    capital = pos 100;
    position_size_pct = pos 1;
    spread_pct = pos 0;
    slippage_pct = pos 0;
  };
}

abbrev resulting : Result (SymbolResult ℤ) → SymbolResult ℤ
resulting (ok r) = r
resulting (err e) = record { symbol = ""; trades = []; equity = []; cash = []; snapshots = [] }

abbrev bars : List (Bar ℤ)
bars = bar ten 10 ∷ bar (ten + 300_000_000) 11 ∷ []

simulated : simulate_symbol run bars 0 ≡ ok (resulting (simulate_symbol run bars 0))
unfolding simulate_symbol is_simulated
simulated = refl

simulate_symbol_samples_example :
    map time_of (resulting (simulate_symbol run bars 0)).equity
    ≡ map bar_time (keep (is_simulated run) bars)
simulate_symbol_samples_example = simulate_symbol_samples run bars 0 _ simulated

-- a bar of the benchmark that is later than the first bar
abbrev later_spy : List (Bar ℤ)
later_spy = bar (ten + 300_000_000) 40 ∷ []

informed :
    simulate_symbol (longer run later_spy) bars 0
    ≡ ok (resulting (simulate_symbol (longer run later_spy) bars 0))
unfolding simulate_symbol is_simulated
informed = refl

simulate_symbol_looks_back_example :
    (r0 : SymbolResult ℤ) × (simulate_symbol run (bar ten 10 ∷ []) 0 ≡ ok r0)
    × Continues r0 (resulting (simulate_symbol (longer run later_spy) bars 0))
simulate_symbol_looks_back_example =
    simulate_symbol_looks_back run later_spy (bar ten 10 ∷ []) (bar (ten + 300_000_000) 11 ∷ []) 0 _
      ((refl, tt), tt) informed

entered :
    (generate model "A" snapshot none fresh).0
    ≡ ok (answered (generate model "A" snapshot none fresh).0)
unfolding generate
entered = refl

entered_new : IsEntry model none (answered (generate model "A" snapshot none fresh).0)
unfolding generate current_exposure minutes_of
entered_new = record { directional = refl; new = λ e. cc }

generate-Opens_example :
    Opens model (safety_time model snapshot (last? (or_else (get snapshot.bars "A") [])))
generate-Opens_example =
    generate-Opens model "A" snapshot none fresh
      (answered (generate model "A" snapshot none fresh).0) entered entered_new

drawn : max_drawdown (pos 4 ∷ pos 2 ∷ pos 8 ∷ []) ≡ ok (pos 1)
unfolding max_drawdown ◌-ℤ◌
drawn = refl

max_drawdown-Falls_example :
    ((fall : ℤ) × IsFall (pos 4 ∷ []) (pos 2) fall × (pos 1 ≺ fall ≡ false))
    × (pos 1 ≺ pos 0 ≡ false)
    × ((pos 1 ≡ pos 0) ⊎ Falls [] (pos 4 ∷ pos 2 ∷ pos 8 ∷ []) (pos 1))
max_drawdown-Falls_example =
    max_drawdown-Falls whole-IsFloat (pos 4 ∷ []) (pos 8 ∷ []) (pos 2) (pos 1) drawn
