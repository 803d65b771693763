-- ===== src/Tests/Data.antt =====
-- The dataset, the eligibility of symbols and the replayed market data on small inputs.
use carcharoth.Base.{
  ℕ, String, List, [], ◌∷◌, ◌+◌, true, none, some, ◌≡◌, ◌≢◌, refl, length, drop, All, arith,
}
use carcharoth.Base.Eq.{◌==◌, string_eq, nat_eq}
use carcharoth.Base.Int.{ℤ, pos}
use carcharoth.Base.Dict.{values}
use carcharoth.Base.Float.Whole.{whole}
use carcharoth.Base.Result.{ok, value_of, is_ok}
use carcharoth.Domain.{Bar}
use carcharoth.Config.{TargetConfig, EligibilityMode}
use carcharoth.Dataset.Clean.{Reals, PreparedSymbol}
use carcharoth.Dataset.Evidence.{WindowEvidence}
use carcharoth.Dataset.Gaps.{gap_sums, sum_at, is_contiguous, gap_sums-eq-contiguous}
use carcharoth.Dataset.Rows.{Record, Window, symbol_rows, total_of}
use carcharoth.Dataset.Rows.Sound.{IsSound, symbol_rows-IsSound}
use carcharoth.Dataset.Rows.Counts.{symbol_rows-usable}
use carcharoth.Dataset.Build.{ModelDataset, Pipeline, dataset_from_prepared}
use carcharoth.Dataset.Build.Orders.{IsBuilt, dataset_from_prepared-IsBuilt}
use carcharoth.Config.Overrides.{
  Value, Entries, find, set_key, set_path, walk_to_parent, apply_overrides, validate_override_paths,
}
use carcharoth.Config.Overrides.Paths.{look_up, set_path-look_up_apart, walk_to_parent-set_path}
use carcharoth.Config.Overrides.Checked.{validate_override_paths-apply_overrides}
use carcharoth.Eligibility.{Scope, Status, Choice, SymbolAssessment, EligibilityReport, assess}
use carcharoth.Eligibility.Cohort.{IsCohort, assess-IsCohort}
use carcharoth.Eligibility.Annotated.{IsAnnotated, assess-IsAnnotated}
use carcharoth.Tests.Setting.{utc, ten, bar}

abbrev five_minutes : ℕ
five_minutes = 300_000_000

abbrev four_bars : List (Bar ℤ)
four_bars =
    bar ten 10
    ∷ bar (ten + five_minutes) 11
    ∷ bar (ten + 600_000_000) 12
    ∷ bar (ten + 900_000_000) 13
    ∷ []

abbrev reals : Reals ℤ
reals = record { is_finite = λ x. true; log = λ x. x }

abbrev prepared : PreparedSymbol ℤ
prepared = record {
  bars = four_bars;
  matrix = (pos 1 ∷ []) ∷ (pos 2 ∷ []) ∷ (pos 3 ∷ []) ∷ (pos 4 ∷ []) ∷ [];
  errors = [];
}

-- the last two bars cannot be left before its end
abbrev window : Window ℤ
window = record {
  target = TargetConfig.regression (pos 2);
  horizon = 2;
  step = five_minutes;
  start = ten;
  end_exclusive = ten + 1_200_000_000;
  grid = none;
}

abbrev pipeline : Pipeline ℤ
pipeline = record {
  feature_names = "f" ∷ [];
  benchmark_symbol = "SPY";
  step = five_minutes;
  compute_matrix = λ bars benchmark. ok (bars, []);
}

gap_sums-eq-contiguous_example :
    (sum_at (gap_sums five_minutes 0 four_bars) (1 + 2)
      == sum_at (gap_sums five_minutes 0 four_bars) 1)
    ≡ is_contiguous five_minutes 2 (drop 1 four_bars)
gap_sums-eq-contiguous_example = gap_sums-eq-contiguous five_minutes 1 2 four_bars (omega arith)

-- the rows of "A"
abbrev two_rows :
    (out : List (Record ℤ) × WindowEvidence) × (symbol_rows reals window prepared "A" ≡ ok out)
unfolding symbol_rows
two_rows = value_of (symbol_rows reals window prepared "A") refl

two_rows_count : length two_rows.0.0 ≡ 2
unfolding symbol_rows value_of
two_rows_count = refl

symbol_rows-IsSound_example : All (IsSound reals window prepared "A") two_rows.0.0
symbol_rows-IsSound_example = symbol_rows-IsSound reals window prepared "A" two_rows.1

symbol_rows-usable_example :
    (two_rows.0.1.usable_rows ≡ length two_rows.0.0)
    × (two_rows.0.1.attempted_rows
        ≡ length two_rows.0.0 + total_of (values two_rows.0.1.rejections))
symbol_rows-usable_example = symbol_rows-usable reals window prepared "A" two_rows.1

abbrev dataset :
    (d : ModelDataset ℤ) × (dataset_from_prepared reals
        (("A", prepared) ∷ [])
        ("A" ∷ [])
        pipeline
        window
      ≡ ok d)
unfolding dataset_from_prepared carcharoth.Base.Dict.get
dataset =
    value_of (dataset_from_prepared reals (("A", prepared) ∷ []) ("A" ∷ []) pipeline window) refl

dataset_from_prepared-IsBuilt_example : IsBuilt reals window (("A", prepared) ∷ []) dataset.0
dataset_from_prepared-IsBuilt_example =
    dataset_from_prepared-IsBuilt reals window (("A", prepared) ∷ []) ("A" ∷ []) pipeline dataset.1

-- one symbol that has the rows above, and one that has no window
abbrev assessed : List (SymbolAssessment ℤ)
assessed =
    record {
      symbol = "A";
      decision = Choice.not_assessed;
      windows = ("train", two_rows.0.1) ∷ [];
      reasons = [];
      trained = none;
    }
    ∷ record {
      symbol = "B";
      decision = Choice.not_assessed;
      windows = [];
      reasons = [];
      trained = none;
    }
    ∷ []

abbrev report : Scope → EligibilityReport ℤ
report scope = record {
  scope = scope;
  status = Status.error;
  policy = record {
    mode = EligibilityMode.strict;
    min_train_rows = pos 2;
    min_validation_rows = pos 1;
    min_usable_coverage = pos 1;
    min_symbols = pos 1;
    min_retained_fraction = pos 1;
  };
  requested_symbols = "A" ∷ "B" ∷ [];
  effective_symbols = [];
  symbols = [];
  context = [];
  global_reasons = [];
}

abbrev cohort : (out : EligibilityReport ℤ) × (assess (report Scope.training) assessed ≡ ok out)
unfolding assess
cohort = value_of (assess (report Scope.training) assessed) refl

cohort_passed : cohort.0.status ≡ Status.passed
unfolding assess value_of symbol_rows carcharoth.Base.Dict.put carcharoth.Base.Dict.get
    carcharoth.Base.Int.◌*ℤ◌
cohort_passed = refl

passed-ne-rejected : (status : Status) → status ≡ Status.passed → status ≢ Status.rejected
passed-ne-rejected status passed h = cc (passed, h)

assess-IsCohort_example : IsCohort (report Scope.training) assessed cohort.0
assess-IsCohort_example =
    assess-IsCohort (report Scope.training) assessed refl cohort.1
      (passed-ne-rejected cohort.0.status cohort_passed)

assess-IsAnnotated_example :
    (out : EligibilityReport ℤ) × (assess (report Scope.backtest) assessed ≡ ok out)
    × IsAnnotated assessed out
assess-IsAnnotated_example = assess-IsAnnotated (report Scope.backtest) assessed refl

-- a: {b: 1}, c: 2
abbrev raw_config : Value ℕ
raw_config = Value.mapping (
    Entries.entry "a" (Value.mapping (Entries.entry "b" (Value.scalar 1) Entries.nothing))
      (Entries.entry "c" (Value.scalar 2) Entries.nothing))

abbrev changed_config : Value ℕ
changed_config = Value.mapping (
    Entries.entry "a" (Value.mapping (Entries.entry "b" (Value.scalar 7) Entries.nothing))
      (Entries.entry "c" (Value.scalar 2) Entries.nothing))

set_path_run : set_path raw_config ("a" ∷ "b" ∷ []) (Value.scalar 7) ≡ ok changed_config
unfolding set_path find set_key
set_path_run = refl

set_path-look_up_apart_example :
    (look_up changed_config ("a" ∷ "b" ∷ []) ≡ some (Value.scalar 7))
    × (look_up changed_config ("c" ∷ []) ≡ look_up raw_config ("c" ∷ []))
set_path-look_up_apart_example =
    set_path-look_up_apart raw_config ("a" ∷ "b" ∷ []) ("c" ∷ []) (Value.scalar 7) set_path_run refl

walk_to_parent-set_path_example :
    is_ok (walk_to_parent raw_config ("a" ∷ "b" ∷ []))
    ≡ is_ok (set_path raw_config ("a" ∷ "b" ∷ []) (Value.scalar 7))
walk_to_parent-set_path_example = walk_to_parent-set_path raw_config "a" ("b" ∷ []) (Value.scalar 7)

abbrev two_overrides : List (List String × Value ℕ)
two_overrides = ("a" ∷ "b" ∷ [], Value.scalar 7) ∷ ("c" ∷ [], Value.mapping Entries.nothing) ∷ []

raw_config-is_validated :
    is_ok (validate_override_paths raw_config (("a" ∷ "b" ∷ []) ∷ ("c" ∷ []) ∷ [])) ≡ true
unfolding validate_override_paths walk_to_parent find
raw_config-is_validated = refl

validate_override_paths-apply_overrides_example :
    is_ok (apply_overrides raw_config two_overrides) ≡ true
validate_override_paths-apply_overrides_example =
    validate_override_paths-apply_overrides raw_config two_overrides refl raw_config-is_validated
