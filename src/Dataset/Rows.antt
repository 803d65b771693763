-- ===== src/Dataset/Rows.antt =====
-- modeling/dataset.py: `dataset_from_prepared`, its rows, labels and rejections.
pub mod Sound
pub mod Counts
use carcharoth.Base.{
  ℕ, zero, suc, ◌+◌, ◌-◌, ◌*◌, String, List, [], ◌∷◌, ◌++◌, Bool, true, false, Option, none, some,
  ◌&&◌, ◌||◌, not, leb, length, get_elem?, map, if◌then◌else◌,
}
use carcharoth.Base.Eq.{◌==◌, nat_eq, string_eq}
use carcharoth.Base.Int.{ℤ, pos, pos_part}
use carcharoth.Base.Float.{Float, ◌⊖◌, ◌≺◌}
use carcharoth.Base.Dict.{Dict, get, values}
use carcharoth.Base.Result.{Error, Result, ok, err, ◌>>=◌}
use carcharoth.Base.Sort.{sort_by, string_le}
use carcharoth.Domain.{Time, Bar, ModelTask}
use carcharoth.Session.{MarketZone, is_regular_session}
use carcharoth.Config.{TargetConfig}
use carcharoth.Signal.{all_finite}
use carcharoth.Dataset.Clean.{Reals, PreparedSymbol}
use carcharoth.Dataset.Evidence.{
  Counter, increment, WindowEvidence, window_evidence, is_within, has_date,
}
use carcharoth.Dataset.Gaps.{gap_sums, sum_at}

-- `CLASS_SHORT`, `CLASS_FLAT`, `CLASS_LONG`, or a return
pub data Label (F : Type 0) : Type 0 where
  value : F → Label F
  class_short class_flat class_long : Label F

-- an entry of `records`
pub record Record (F : Type 0) : Type 0 where
  pub timestamp : Time
  pub symbol : String
  pub row : List F
  pub label : Label F

-- The arguments of the loop over the bars of one symbol: the target and the window. The step is in
-- microseconds, and the horizon is the positive `horizon_bars`.
pub record Window (F : Type 0) : Type 0 where
  pub target : TargetConfig F
  pub horizon : ℕ
  pub step : ℕ
  pub start : Time
  pub end_exclusive : Time
  pub grid : Option (Dict Time ℕ)

-- `grid is not None and grid.get(target_time) != day`, negated
abbrev pub grid_agrees : Option (Dict Time ℕ) → Time → ℕ → Bool
grid_agrees none t day = true
grid_agrees (some grid) t day = has_date (get grid t) day

module _ {F : Type 0} where
  abbrev pub stands_at : Option (Bar F) → Time → Bool
  stands_at none t = false
  stands_at (some bar) t = bar.timestamp == t

  -- a row that is not there is no reason: reading it raises (`label_row`)
  abbrev pub finite_row : Reals F → Option (List F) → Bool
  finite_row reals none = true
  finite_row reals (some row) = all_finite reals.is_finite row

  -- the chain of tests on the bar at `index`
  unfoldable pub reject_reason :
      ⦃zone : MarketZone⦄
      → Reals F
      → Window F
      → PreparedSymbol F
      → List ℕ
      → ℕ
      → Bar F
      → Option String
  unfolding all_finite is_regular_session
  reject_reason ⦃zone⦄ reals w item gaps index bar =
      let future = index + w.horizon in
      let target_time = bar.timestamp + w.horizon * w.step in
      let day = zone.local_date bar.timestamp in
      if leb w.end_exclusive target_time
      then some "split_end"
      else if not (zone.local_date target_time == day)
          || not (is_regular_session target_time)
          || not (grid_agrees w.grid target_time day)
      then some "session_end"
      else if leb (length item.bars) future
      then some "missing_horizon"
      else if not (sum_at gaps future == sum_at gaps index)
          || not (stands_at (get_elem? item.bars future) target_time)
      then some "gapped_horizon"
      else if not (finite_row reals (get_elem? item.matrix index))
      then some "incomplete_features"
      else none

-- what a bar gives: a record, or the reason of its rejection
pub data Verdict (F : Type 0) : Type 0 where
  record_of : Record F → Verdict F
  rejected : String → Verdict F
  outside : Verdict F

-- `records` and `rejects`
pub record Tally (F : Type 0) : Type 0 where
  pub records : List (Record F)
  pub rejects : Counter

abbrev pub total_of : List ℕ → ℕ
total_of [] = 0
total_of (n ∷ ns) = n + total_of ns

module _ {F : Type 0} ⦃num : Float F⦄ where
  -- the label of a return
  unfoldable pub label_of : TargetConfig F → F → Label F
  label_of (TargetConfig.regression horizon) forward_return = Label.value forward_return
  label_of (TargetConfig.classification horizon band) forward_return =
      if forward_return ≺ num.neg band
      then Label.class_short
      else if band ≺ forward_return
      then Label.class_long
      else Label.class_flat

  -- `log(exit.close) - log(entry.open)`
  abbrev pub forward_return : Reals F → Bar F → Bar F → F
  forward_return reals entry exit_bar = reals.log exit_bar.close ⊖ reals.log entry.open_price

  -- the entry and exit bars and the row of features; an index that is out of range raises
  unfoldable pub label_row :
      Reals F
      → Window F
      → String
      → Bar F
      → Option (Bar F)
      → Option (Bar F)
      → Option (List F)
      → Result (Verdict F)
  unfolding label_of
  label_row reals w symbol bar (some entry) (some exit_bar) (some row) =
      if reals.is_finite (forward_return reals entry exit_bar)
      then ok (
          record_of (record {
            timestamp = bar.timestamp;
            symbol = symbol;
            row = row;
            label = label_of w.target (forward_return reals entry exit_bar);
          }))
      else ok (Verdict.rejected "invalid_target")
  label_row reals w symbol bar _ _ _ = err Error.other

  abbrev pub judge_by : Option String → Result (Verdict F) → Result (Verdict F)
  judge_by none labelled = labelled
  judge_by (some reason) labelled = ok (Verdict.rejected reason)

  -- one round of the loop over the bars
  unfoldable pub judge :
      ⦃zone : MarketZone⦄
      → Reals F
      → Window F
      → PreparedSymbol F
      → List ℕ
      → String
      → ℕ
      → Bar F
      → Result (Verdict F)
  unfolding reject_reason label_row
  judge reals w item gaps symbol index bar =
      if is_within w.start w.end_exclusive bar.timestamp
      then judge_by (reject_reason reals w item gaps index bar) (
          label_row reals w symbol bar (get_elem? item.bars (index + 1))
            (get_elem? item.bars (index + w.horizon)) (get_elem? item.matrix index))
      else ok Verdict.outside

  unfoldable pub tally : Verdict F → Tally F → Tally F
  unfolding increment
  tally (Verdict.record_of r) t = record t { records = t.records ++ (r ∷ []) }
  tally (Verdict.rejected reason) t = record t { rejects = increment t.rejects reason }
  tally Verdict.outside t = t

  -- the loop over the bars from `index` on
  unfoldable pub judge_bars :
      ⦃zone : MarketZone⦄
      → Reals F
      → Window F
      → PreparedSymbol F
      → List ℕ
      → String
      → ℕ
      → List (Bar F)
      → Tally F
      → Result (Tally F)
  unfolding judge tally
  judge_bars reals w item gaps symbol index [] t = ok t
  judge_bars reals w item gaps symbol index (bar ∷ bars) t =
      judge reals w item gaps symbol index bar >>= λ verdict.
      judge_bars reals w item gaps symbol (suc index) bars (tally verdict t)

  -- the records and the statistics of one symbol
  unfoldable pub symbol_rows :
      ⦃zone : MarketZone⦄
      → Reals F
      → Window F
      → PreparedSymbol F
      → String
      → Result (List (Record F) × WindowEvidence)
  unfolding judge_bars window_evidence gap_sums
  symbol_rows reals w item symbol =
      let stats = window_evidence reals item w.start w.end_exclusive w.step w.horizon w.grid in
      judge_bars reals w item (gap_sums w.step 0 item.bars) symbol 0 item.bars
        (record { records = []; rejects = [] })
      >>= λ t. ok (
        t.records,
        record stats {
          rejections = t.rejects;
          usable_rows = stats.attempted_rows - total_of (values t.rejects);
        },
      )
