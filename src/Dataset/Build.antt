-- ===== src/Dataset/Build.antt =====
-- modeling/dataset.py: `prepare_dataset`, `dataset_from_prepared`, `build_dataset` and
-- `ModelDataset`.
pub mod Orders
use carcharoth.Base.{
  ℕ, zero, suc, ◌+◌, ◌*◌, String, List, [], ◌∷◌, ◌++◌, Bool, true, false, Option, none, some, ◌&&◌,
  ◌||◌, leb, ltb, length, keep, map, or_else, if◌then◌else◌,
}
use carcharoth.Base.Eq.{◌==◌, nat_eq, string_eq}
use carcharoth.Base.Float.{Float}
use carcharoth.Base.Int.{pos_part}
use carcharoth.Base.Dict.{Dict, get, put, values}
use carcharoth.Base.Result.{Error, Result, ok, err, ◌>>=◌}
use carcharoth.Base.Sort.{sort_by, dedupe, elem, string_le}
use carcharoth.Domain.{Time, Bar, ModelTask}
use carcharoth.Session.{MarketZone}
use carcharoth.Config.{TargetConfig}
use carcharoth.Dataset.Clean.{Reals, PreparedSymbol, clean}
use carcharoth.Dataset.Evidence.{WindowEvidence}
use carcharoth.Dataset.Rows.{Label, Record, Window, symbol_rows, total_of}

pub record DatasetRow : Type 0 where
  pub symbol : String
  pub timestamp : Time

-- `ModelDataset`: the row of features, the label and the origin of a row have the same position
pub record ModelDataset (F : Type 0) : Type 0 where
  pub features : List (List F)
  pub labels : List (Label F)
  pub feature_names : List String
  pub rows : List DatasetRow
  pub task : ModelTask
  pub attempted_rows : ℕ
  pub evidence : Dict String WindowEvidence

-- What the module calls of `FeaturePipeline`. The step is the bar width, in microseconds; each row
-- of a matrix has a value for each of the names.
pub record Pipeline (F : Type 0) : Type 0 where
  pub feature_names : List String
  pub benchmark_symbol : String
  pub step : ℕ
  pub compute_matrix : List (Bar F) → List (Bar F) → Result (List (Bar F) × List (List F))

-- the sum of `attempted_rows`
abbrev pub attempted_of : Dict String WindowEvidence → ℕ
attempted_of evidence = total_of (map (λ (e : WindowEvidence). e.attempted_rows) (values evidence))

-- a selection by a mask
abbrev pub choose {ℓ} : {A : Type ℓ} → List Bool → List A → List A
choose (b ∷ bs) (x ∷ xs) = let rest = choose bs xs in if b then x ∷ rest else rest
choose _ _ = []

-- `d[key]`
abbrev pub key_of {ℓ} : {A : Type ℓ} → Option A → Result A
key_of none = err Error.key_error
key_of (some a) = ok a

module _ {F : Type 0} where
  -- the key `(record[0], record[1])`
  unfoldable pub record_le : Record F → Record F → Bool
  record_le a b =
      ltb a.timestamp b.timestamp || a.timestamp == b.timestamp && string_le a.symbol b.symbol

  abbrev pub row_of : Record F → DatasetRow
  row_of r = record { symbol = r.symbol; timestamp = r.timestamp }

  abbrev horizon_of : TargetConfig F → ℕ
  horizon_of (TargetConfig.regression horizon) = pos_part horizon
  horizon_of (TargetConfig.classification horizon band) = pos_part horizon

  abbrev pub task_of : TargetConfig F → ModelTask
  task_of (TargetConfig.regression horizon) = ModelTask.regression
  task_of (TargetConfig.classification horizon band) = ModelTask.classification

  -- `ModelDataset.select_symbols`
  unfoldable pub select_symbols : ModelDataset F → List String → ModelDataset F
  unfolding elem keep
  select_symbols d symbols =
      let mask = map (λ (row : DatasetRow). elem row.symbol symbols) d.rows in
      let evidence = keep (λ (kv : String × WindowEvidence). elem kv.0 symbols) d.evidence in
      record d {
        features = choose mask d.features;
        labels = choose mask d.labels;
        rows = keep (λ (row : DatasetRow). elem row.symbol symbols) d.rows;
        attempted_rows = attempted_of evidence;
        evidence = evidence;
      }

module _ {F : Type 0} ⦃num : Float F⦄ where
  -- the window, with the horizon that the target has, which is positive
  abbrev pub target_window : Window F → Window F
  target_window w = record w { horizon = horizon_of w.target }

  -- the loop over the symbols
  unfoldable pub collect :
      ⦃zone : MarketZone⦄
      → Reals F
      → Window F
      → Dict String (PreparedSymbol F)
      → List String
      → List (Record F)
      → Dict String WindowEvidence
      → Result (List (Record F) × Dict String WindowEvidence)
  unfolding symbol_rows
  collect reals w prepared [] records evidence = ok (records, evidence)
  collect reals w prepared (symbol ∷ symbols) records evidence =
      key_of (get prepared symbol) >>= λ item. symbol_rows reals w item symbol >>= λ out.
      collect reals w prepared symbols (records ++ out.0) (put evidence symbol out.1)

  -- `dataset_from_prepared`
  unfoldable pub dataset_from_prepared :
      ⦃zone : MarketZone⦄
      → Reals F
      → Dict String (PreparedSymbol F)
      → List String
      → Pipeline F
      → Window F
      → Result (ModelDataset F)
  unfolding collect sort_by record_le
  dataset_from_prepared reals prepared symbols pipeline w =
      collect reals (target_window w) prepared symbols [] [] >>= λ out.
      let records = sort_by record_le out.0 in
      ok (record {
        features = map (λ (r : Record F). r.row) records;
        labels = map (λ (r : Record F). r.label) records;
        feature_names = pipeline.feature_names;
        rows = map row_of records;
        task = task_of w.target;
        attempted_rows = attempted_of out.1;
        evidence = out.1;
      })

  -- the bars of each symbol, cleaned
  unfoldable pub clean_all :
      ⦃zone : MarketZone⦄
      → Reals F
      → Dict String (List (Bar F))
      → Option (Dict Time ℕ)
      → List String
      → Result (Dict String (List (Bar F) × List (Time × String)))
  unfolding clean
  clean_all reals bars grid [] = ok []
  clean_all reals bars grid (symbol ∷ symbols) =
      clean reals symbol (or_else (get bars symbol) []) grid >>= λ cleaned.
      clean_all reals bars grid symbols >>= λ rest. ok ((symbol, cleaned) ∷ rest)

  -- the loop over the symbols of `prepare_dataset`
  unfoldable pub prepare_all :
      Pipeline F
      → Dict String (List (Bar F) × List (Time × String))
      → List (Bar F)
      → List String
      → Dict String (PreparedSymbol F)
      → Result (Dict String (PreparedSymbol F))
  prepare_all pipeline cleaned benchmark [] result = ok result
  prepare_all pipeline cleaned benchmark (symbol ∷ symbols) result =
      key_of (get cleaned symbol) >>= λ values.
      pipeline.compute_matrix values.0 benchmark >>= λ out.
      prepare_all pipeline cleaned benchmark symbols
        (put result symbol (record { bars = out.0; matrix = out.1; errors = values.1 }))

  -- `prepare_dataset`
  unfoldable pub prepare_dataset :
      ⦃zone : MarketZone⦄
      → Reals F
      → Dict String (List (Bar F))
      → List String
      → Pipeline F
      → Option (Dict Time ℕ)
      → Result (Dict String (PreparedSymbol F))
  unfolding clean_all prepare_all dedupe
  prepare_dataset reals bars symbols pipeline grid =
      clean_all reals bars grid (dedupe (symbols ++ (pipeline.benchmark_symbol ∷ [])))
      >>= λ cleaned. key_of (get cleaned pipeline.benchmark_symbol) >>= λ benchmark.
          prepare_all pipeline cleaned benchmark.0 symbols []

  -- `build_dataset`, which knows no calendar
  unfoldable pub build_dataset :
      ⦃zone : MarketZone⦄
      → Reals F
      → Dict String (List (Bar F))
      → List String
      → Pipeline F
      → Window F
      → Result (ModelDataset F)
  unfolding prepare_dataset dataset_from_prepared
  build_dataset reals bars symbols pipeline w =
      prepare_dataset reals bars symbols pipeline none >>= λ prepared.
      dataset_from_prepared reals prepared symbols pipeline (record w { grid = none })
