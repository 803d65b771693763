-- ===== src/Quicktest/Curves.antt =====
-- quicktest/result.py: the results of all symbols, and the sums of their curves.
use carcharoth.Base.{String, List, [], ◌∷◌, ◌++◌, Bool, true, false, leb, map, keep, if◌then◌else◌}
use carcharoth.Base.Eq.{nat_eq}
use carcharoth.Base.Float.{Float}
use carcharoth.Base.Dict.{Dict, values}
use carcharoth.Base.Sort.{sort_by, dedupe}
use carcharoth.Domain.{Time, EquityPoint, PositionSnapshot, TradeRecord}
use carcharoth.Quicktest.{SymbolResult}

pub record QuickTestResult (F : Type 0) : Type 0 where
  pub capital_per_symbol : F
  pub symbols : Dict String (SymbolResult F)

-- one curve of `_sum_curves`: the points from its index on, and its last value
pub record Cursor (F : Type 0) : Type 0 where
  pub points : List (EquityPoint F)
  pub last_value : F

module _ {F : Type 0} where
  -- `[x for r in results for x in f(r)]`
  abbrev pub gather : {A : Type 0} → (SymbolResult F → List A) → List (SymbolResult F) → List A
  gather f [] = []
  gather f (r ∷ rs) = f r ++ gather f rs

  abbrev pub trade_le : TradeRecord F → TradeRecord F → Bool
  trade_le a b = leb a.timestamp b.timestamp

  -- `QuickTestResult.trades`
  unfoldable pub all_trades : QuickTestResult F → List (TradeRecord F)
  unfolding sort_by
  all_trades r = sort_by trade_le (gather (λ s. s.trades) (values r.symbols))

  -- `QuickTestResult.snapshots`
  unfoldable pub all_snapshots : QuickTestResult F → List (PositionSnapshot F)
  all_snapshots r = gather (λ s. s.snapshots) (values r.symbols)

  -- the `while` loop: the points up to `ts` are passed, and the last of them counts
  unfoldable pub advance : Time → List (EquityPoint F) → F → Cursor F
  advance ts [] last_value = record { points = []; last_value = last_value }
  advance ts (p ∷ ps) last_value =
      let later = advance ts ps p.equity in
      if leb p.timestamp ts then later else record { points = p ∷ ps; last_value = last_value }

  unfoldable pub advance_all : Time → List (Cursor F) → List (Cursor F)
  unfolding advance
  advance_all ts = map λ c. advance ts c.points c.last_value

  abbrev pub is_drawn : List (EquityPoint F) → Bool
  is_drawn [] = false
  is_drawn (_ ∷ _) = true

  abbrev pub times_of : List (List (EquityPoint F)) → List Time
  times_of [] = []
  times_of (c ∷ cs) = map (λ (p : EquityPoint F). p.timestamp) c ++ times_of cs

  -- `sorted({...})` of the timestamps
  unfoldable pub grid_of : List (List (EquityPoint F)) → List Time
  unfolding sort_by dedupe
  grid_of curves = sort_by leb (dedupe (times_of curves))

  abbrev pub start_cursor : F → List (EquityPoint F) → Cursor F
  start_cursor base points = record { points = points; last_value = base }

module _ {F : Type 0} ⦃num : Float F⦄ where
  -- the loop over the grid
  unfoldable pub sum_points : List Time → List (Cursor F) → List (EquityPoint F)
  unfolding advance_all
  sum_points [] cursors = []
  sum_points (ts ∷ grid) cursors =
      let now = advance_all ts cursors in
      record { timestamp = ts; equity = num.total (map (λ (c : Cursor F). c.last_value) now) }
      ∷ sum_points grid now

  -- `_sum_curves`; of no curves the grid is empty
  unfoldable pub sum_curves : List (List (EquityPoint F)) → F → List (EquityPoint F)
  unfolding sum_points grid_of keep
  sum_curves curves base =
      let drawn = keep is_drawn curves in sum_points (grid_of drawn) (map (start_cursor base) drawn)

  unfoldable pub aggregate_equity : QuickTestResult F → List (EquityPoint F)
  unfolding sum_curves
  aggregate_equity r =
      sum_curves (map (λ (s : SymbolResult F). s.equity) (values r.symbols)) r.capital_per_symbol

  unfoldable pub aggregate_cash : QuickTestResult F → List (EquityPoint F)
  unfolding sum_curves
  aggregate_cash r =
      sum_curves (map (λ (s : SymbolResult F). s.cash) (values r.symbols)) r.capital_per_symbol
