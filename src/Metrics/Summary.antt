-- ===== src/Metrics/Summary.antt =====
-- analysis/metrics.py: `enrich_with_excursions` and `compute_metrics`.
use carcharoth.Base.{
  String, List, [], ◌∷◌, ◌++◌, Bool, true, false, Option, none, some, ltb, leb, last?, keep, length,
  take, drop, map, or_else, if◌then◌else◌,
}
use carcharoth.Base.Eq.{◌==◌, nat_eq, string_eq}
use carcharoth.Base.Int.{pos, sub_ℕ}
use carcharoth.Base.Float.{Float, ◌⊕◌, ◌⊖◌, ◌⊗◌, ◌⊘◌, ◌≺◌, ◌≼◌, nought, one, divide, fmin, fmax}
use carcharoth.Base.Dict.{Dict, get, put}
use carcharoth.Base.Sort.{sort_by, string_le}
use carcharoth.Base.Result.{Error, Result, ok, err, ◌>>=◌}
use carcharoth.Domain.{Time, EquityPoint, PositionSnapshot, MetricValue}
use carcharoth.Metrics.Matching.{RoundTrip}

-- `statistics` and `math`
pub record Statistics (F : Type 0) : Type 0 where
  pub fmean : List F → F
  pub median : List F → F
  pub pstdev : List F → F
  pub sqrt : F → F

-- `pairwise(xs)`
abbrev pub pairwise {ℓ} : {A : Type ℓ} → List A → List (A × A)
pairwise [] = []
pairwise (x ∷ []) = []
pairwise (x ∷ y ∷ xs) = (x, y) ∷ pairwise (y ∷ xs)

abbrev pub is_nil {ℓ} : {A : Type ℓ} → List A → Bool
is_nil [] = true
is_nil (_ ∷ _) = false

module _ {F : Type 0} where
  abbrev metric : String → F → MetricValue F
  metric name value = record { name = name; value = value; symbol = none }

  -- by symbol, then by time
  abbrev pub earlier_snapshot : PositionSnapshot F → PositionSnapshot F → Bool
  earlier_snapshot a b =
      if a.symbol == b.symbol then leb a.timestamp b.timestamp else string_le a.symbol b.symbol

  -- `by_symbol[symbol]`
  unfoldable pub snapshots_of : List (PositionSnapshot F) → String → List (PositionSnapshot F)
  unfolding sort_by keep
  snapshots_of snapshots symbol =
      keep (λ s. s.symbol == symbol) (sort_by earlier_snapshot snapshots)

  -- the values from `bisect_left(times, opened)` to `bisect_right(times, closed)`
  unfoldable pub snapshots_within :
      List (PositionSnapshot F) → Time → Time → List (PositionSnapshot F)
  unfolding keep
  snapshots_within values opened closed =
      let low = length (keep (λ s. ltb s.timestamp opened) values) in
      let high = length (keep (λ s. leb s.timestamp closed) values) in drop low (take high values)

module _ {F : Type 0} ⦃num : Float F⦄ where
  -- `min(xs)` and `max(xs)` of a non-empty list
  abbrev pub least : F → List F → F
  least x [] = x
  least x (y ∷ ys) = least (fmin x y) ys

  abbrev pub greatest : F → List F → F
  greatest x [] = x
  greatest x (y ∷ ys) = greatest (fmax x y) ys

  unfoldable pub with_excursions : RoundTrip F → List F → RoundTrip F
  with_excursions trip [] = trip
  with_excursions trip (pnl ∷ pnls) =
      let entry_value = num.abs (trip.entry_price ⊗ trip.qty) in
      if num.eq entry_value nought then trip else record trip {
        mae_pct = some (fmin (least pnl pnls) nought ⊘ entry_value);
        mfe_pct = some (fmax (greatest pnl pnls) nought ⊘ entry_value);
      }

  -- the loop of `enrich_with_excursions`
  unfoldable pub enrich_with_excursions :
      List (PositionSnapshot F) → List (RoundTrip F) → List (RoundTrip F)
  unfolding with_excursions snapshots_of snapshots_within
  enrich_with_excursions snapshots [] = []
  enrich_with_excursions snapshots (trip ∷ trips) =
      let held =
        snapshots_within (snapshots_of snapshots trip.symbol) trip.opened_at trip.closed_at in
      with_excursions trip (map (λ s. s.unrealized_pnl) held)
      ∷ enrich_with_excursions snapshots trips

  -- the loop of `_max_drawdown`
  unfoldable pub drawdown_from : F → F → List F → Result F
  drawdown_from peak worst [] = ok worst
  drawdown_from peak worst (value ∷ values) =
      let peak' = fmax peak value in
      divide value peak' >>= λ share. drawdown_from peak' (fmax worst (one ⊖ share)) values

  -- `_max_drawdown`; `values[0]` of an empty list raises
  unfoldable pub max_drawdown : List F → Result F
  unfolding drawdown_from
  max_drawdown [] = err Error.other
  max_drawdown (value ∷ values) = drawdown_from value nought (value ∷ values)

  module _ (stats : Statistics F) where
    -- `_SESSION_SECONDS`, `_TRADING_DAYS_PER_YEAR` and `_TRADING_SECONDS_PER_YEAR`
    abbrev session_seconds : F
    session_seconds = num.of_int (pos 23_400)

    abbrev trading_days : F
    trading_days = num.of_int (pos 252)

    unfoldable pub equity_returns : List (EquityPoint F × EquityPoint F) → List F
    unfolding keep
    equity_returns pairs =
        map (λ p. p.1.equity ⊘ p.0.equity ⊖ one) (keep (λ p. nought ≺ p.0.equity) pairs)

    -- `timedelta.total_seconds()`
    unfoldable pub bar_deltas : List (EquityPoint F × EquityPoint F) → List F
    bar_deltas =
        map λ p. num.of_int (sub_ℕ p.1.timestamp p.0.timestamp) ⊘ num.of_int (pos 1_000_000)

    unfoldable pub periods_per_year : F → F
    periods_per_year bar_seconds =
        if session_seconds ≼ bar_seconds
        then trading_days
        else session_seconds ⊗ trading_days ⊘ bar_seconds

    -- `_sharpe`
    unfoldable pub sharpe : List (EquityPoint F) → Option F
    unfolding equity_returns bar_deltas periods_per_year
    sharpe equity =
        let returns = equity_returns (pairwise equity) in
        let deviation = stats.pstdev returns in
        let bar_seconds = stats.median (bar_deltas (pairwise equity)) in
        if ltb (length returns) 2
        then none
        else if num.eq deviation nought
        then some nought
        else if bar_seconds ≼ nought
        then none
        else some (stats.fmean returns ⊘ deviation ⊗ stats.sqrt (periods_per_year bar_seconds))

    abbrev optional_metric : String → Option F → List (MetricValue F)
    optional_metric name none = []
    optional_metric name (some value) = metric name value ∷ []

    -- `_equity_metrics` of at least two points
    equity_metrics_from : EquityPoint F → List (EquityPoint F) → Result (List (MetricValue F))
    unfolding max_drawdown sharpe
    equity_metrics_from first points = do
      let values = map (λ (p : EquityPoint F). p.equity) points
      let total_return = or_else (last? values) first.equity ⊘ first.equity ⊖ one
      drawdown ← max_drawdown values
      ok (
          metric "total_return" total_return
          ∷ metric "max_drawdown" drawdown
          ∷ optional_metric "sharpe" (sharpe points))

    -- `_equity_metrics`
    unfoldable pub equity_metrics : List (EquityPoint F) → Result (List (MetricValue F))
    unfolding equity_metrics_from
    equity_metrics [] = ok []
    equity_metrics (first ∷ []) = ok []
    equity_metrics (first ∷ second ∷ rest) =
        if first.equity ≼ nought then ok [] else equity_metrics_from first (first ∷ second ∷ rest)

    abbrev pub some_items : List (Option F) → List F
    some_items [] = []
    some_items (none ∷ xs) = some_items xs
    some_items (some x ∷ xs) = x ∷ some_items xs

    abbrev mean_metric : String → List F → List (MetricValue F)
    mean_metric name [] = []
    mean_metric name (x ∷ xs) = metric name (stats.fmean (x ∷ xs)) ∷ []

    abbrev count : {A : Type 0} → List A → F
    count xs = num.of_int (pos (length xs))

    -- the two metrics of the losses; their sum is not zero
    unfoldable pub loss_metrics : List F → List F → List (MetricValue F)
    loss_metrics wins [] = []
    loss_metrics wins (loss ∷ losses) =
        metric "avg_loss" (stats.fmean (loss ∷ losses))
        ∷ metric "profit_factor" (num.total wins ⊘ num.neg (num.total (loss ∷ losses)))
        ∷ []

    -- `_trade_metrics`
    unfoldable pub trade_metrics : List (RoundTrip F) → List (MetricValue F)
    unfolding keep loss_metrics
    trade_metrics trips =
        let pnls = map (λ (t : RoundTrip F). t.pnl) trips in
        let wins = keep (λ pnl. nought ≺ pnl) pnls in
        let losses = keep (λ pnl. pnl ≺ nought) pnls in
        metric "win_rate" (count wins ⊘ count trips) ∷ mean_metric "avg_win" wins
        ++ loss_metrics wins losses
        ++ mean_metric "avg_mae" (some_items (map (λ (t : RoundTrip F). t.mae_pct) trips))
        ++ mean_metric "avg_mfe" (some_items (map (λ (t : RoundTrip F). t.mfe_pct) trips))

    -- the loop of `_symbol_pnl`
    unfoldable pub add_pnls : Dict String F → List (RoundTrip F) → Dict String F
    add_pnls pnls [] = pnls
    add_pnls pnls (trip ∷ trips) =
        add_pnls (put pnls trip.symbol (or_else (get pnls trip.symbol) nought ⊕ trip.pnl)) trips

    -- `_symbol_pnl`
    unfoldable pub symbol_pnl : List (RoundTrip F) → List (MetricValue F)
    unfolding add_pnls sort_by
    symbol_pnl trips =
        map (λ kv. record { name = "symbol_pnl"; value = kv.1; symbol = some kv.0 })
          (sort_by (λ a b. string_le a.0 b.0) (add_pnls [] trips))

    -- `compute_metrics` on the round trips
    unfoldable pub compute_metrics :
        List (EquityPoint F) → List (RoundTrip F) → Result (List (MetricValue F))
    unfolding equity_metrics trade_metrics symbol_pnl
    compute_metrics equity trips = do
      metrics ← equity_metrics equity
      ok (
          metrics
          ++ (metric "num_trades" (count trips)
              ∷ (if is_nil trips then [] else trade_metrics trips ++ symbol_pnl trips)))
