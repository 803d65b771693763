-- ===== src/Quicktest.antt =====
-- quicktest/simulator.py and quicktest/result.py: one symbol through a fixed model, with fills at the
-- next bar's open. The state of the simulation is `Sim`; the model keeps a state `W` of its own.
pub mod Ahead
pub mod Curves
pub mod Replay
use carcharoth.Base.{
  ℕ, String, List, [], ◌∷◌, ◌++◌, Bool, true, false, Option, none, some, ◌&&◌, ◌||◌, not, ltb, leb,
  keep, length, drop, if◌then◌else◌, ◌-◌,
}
use carcharoth.Base.Eq.{◌==◌, string_eq}
use carcharoth.Base.Int.{pos, negsuc}
use carcharoth.Base.Float.{Float, ◌⊕◌, ◌⊖◌, ◌⊗◌, ◌⊘◌, ◌≺◌, ◌≼◌, nought, one, divide}
use carcharoth.Base.Dict.{Dict}
use carcharoth.Base.Sort.{sort_by}
use carcharoth.Base.Result.{Error, Result, ok, err, ◌>>=◌}
use carcharoth.Domain.{
  Time, Bar, MarketSnapshot, Position, ExposureIntent, TargetExposure, same_exposure, Side,
  same_side, TradeRecord, EquityPoint, PositionSnapshot,
}
use carcharoth.Session.{MarketZone, is_regular_session, regular_session_bars}

pub record SimulationSettings (F : Type 0) : Type 0 where
  pub capital : F
  pub position_size_pct : F
  pub spread_pct : F
  pub slippage_pct : F

-- `_Holding` of the simulator
pub record Lot (F : Type 0) : Type 0 where
  pub qty : F
  pub entry_price : F

pub record SymbolResult (F : Type 0) : Type 0 where
  pub symbol : String
  pub trades : List (TradeRecord F)
  pub equity : List (EquityPoint F)
  pub cash : List (EquityPoint F)
  pub snapshots : List (PositionSnapshot F)

-- the locals of `simulate_symbol` that the loop changes, and the model's state
pub record Sim (F W : Type 0) : Type 0 where
  pub cash : F
  pub holding : Option (Lot F)
  pub pending : Option (Side × F)
  pub result : SymbolResult F
  pub model : W

-- `xs[-n:]` for a positive `n`
abbrev pub take_last {ℓ} : {A : Type ℓ} → ℕ → List A → List A
take_last n xs = drop (length xs - n) xs

module _ {F : Type 0} ⦃num : Float F⦄ where
  abbrev two : F
  two = num.of_int (pos 2)

  -- `_fill_price` of the simulator
  unfoldable pub open_fill_price : Side → F → SimulationSettings F → F
  open_fill_price Side.buy opening settings =
      opening ⊗ (one ⊕ settings.spread_pct ⊘ two) ⊗ (one ⊕ settings.slippage_pct)
  open_fill_price Side.sell opening settings =
      opening ⊗ (one ⊖ settings.spread_pct ⊘ two) ⊗ (one ⊖ settings.slippage_pct)

  unfoldable pub lot_exposure : Lot F → TargetExposure
  lot_exposure lot = if nought ≺ lot.qty then TargetExposure.long else TargetExposure.short

  -- the order that closes the whole of a holding
  unfoldable pub closing_order : Lot F → Side × F
  closing_order lot = (if nought ≺ lot.qty then Side.sell else Side.buy, num.abs lot.qty)

  unfoldable pub plan_held : TargetExposure → Lot F → Option (Side × F)
  unfolding lot_exposure closing_order
  plan_held target lot =
      if same_exposure target (lot_exposure lot) then none else some (closing_order lot)

  unfoldable pub plan_entry : TargetExposure → F → SimulationSettings F → Option (Side × F)
  plan_entry target close settings =
      if same_exposure target TargetExposure.flat || close ≼ nought
      then none
      else some (
        if same_exposure target TargetExposure.long then Side.buy else Side.sell,
        settings.capital ⊗ settings.position_size_pct ⊘ close,
      )

  plan_from : TargetExposure → Option (Lot F) → F → SimulationSettings F → Option (Side × F)
  unfolding plan_held plan_entry
  plan_from target none close settings = plan_entry target close settings
  plan_from target (some lot) close settings = plan_held target lot

  -- `_plan`; the division is only reached with a positive `close`, or a NaN
  unfoldable pub plan :
      TargetExposure → Option (Lot F) → F → SimulationSettings F → Option (Side × F)
  unfolding plan_from
  plan target holding close settings =
      if same_exposure target TargetExposure.unchanged
      then none
      else plan_from target holding close settings

  -- `1e-12`
  abbrev tolerance : F
  tolerance = one ⊘ num.of_int (pos 1_000_000_000_000)

  -- the entry price after a fill that leaves a position
  unfoldable pub next_entry_price : Lot F → F → F → F → Result F
  next_entry_price lot delta new_qty price =
      if nought ≺ lot.qty ⊗ delta
      then divide (lot.entry_price ⊗ num.abs lot.qty ⊕ price ⊗ num.abs delta) (num.abs new_qty)
      else if lot.qty ⊗ new_qty ≺ nought
      then ok price
      else ok lot.entry_price

  unfoldable pub next_holding : Option (Lot F) → F → F → Result (Option (Lot F))
  unfolding next_entry_price
  next_holding none delta price = ok (some (record { qty = delta; entry_price = price }))
  next_holding (some lot) delta price =
      let new_qty = lot.qty ⊕ delta in
      if num.abs new_qty ≺ tolerance
      then ok none
      else next_entry_price lot delta new_qty price >>= λ entry_price.
          ok (some (record { qty = new_qty; entry_price = entry_price }))

  -- `_position` of the simulator
  unfoldable pub lot_position : String → Lot F → F → Position F
  lot_position symbol lot price = record {
    symbol = symbol;
    qty = lot.qty;
    avg_entry_price = lot.entry_price;
    market_value = lot.qty ⊗ price;
    unrealized_pnl = (price ⊖ lot.entry_price) ⊗ lot.qty;
    current_price = price;
  }

  abbrev pub position_at : String → F → Option (Lot F) → Option (Position F)
  position_at symbol price none = none
  position_at symbol price (some lot) = some (lot_position symbol lot price)

  unfoldable pub held_value : Option (Lot F) → F → F
  held_value none close = nought
  held_value (some lot) close = lot.qty ⊗ close

  unfoldable pub snapshots_at : String → Bar F → Option (Lot F) → List (PositionSnapshot F)
  snapshots_at symbol bar none = []
  snapshots_at symbol bar (some lot) =
      record {
        symbol = symbol;
        timestamp = bar.timestamp;
        unrealized_pnl = (bar.close ⊖ lot.entry_price) ⊗ lot.qty;
      }
      ∷ []

  module _ {W : Type 0} where
    -- `_fill`: the trade is recorded before the position is settled
    unfoldable pub fill : String → Side → F → F → Time → Sim F W → Result (Sim F W)
    unfolding next_holding
    fill symbol side qty price timestamp s = do
      let delta = if same_side side Side.buy then qty else num.neg qty
      let trade : TradeRecord F = record {
        symbol = symbol;
        side = side;
        qty = qty;
        price = price;
        timestamp = timestamp;
      }
      holding ← next_holding s.holding delta price
      ok (record s {
        cash = s.cash ⊖ delta ⊗ price;
        holding = holding;
        result = record s.result { trades = s.result.trades ++ (trade ∷ []) };
      })

    -- `if pending is not None`
    unfoldable pub fill_at_open :
        String → Bar F → SimulationSettings F → Option (Side × F) → Sim F W → Result (Sim F W)
    unfolding fill open_fill_price
    fill_at_open symbol bar settings none s = ok s
    fill_at_open symbol bar settings (some (side, qty)) s =
        fill symbol side qty (open_fill_price side bar.open_price settings) bar.timestamp s
        >>= λ filled. ok (record filled { pending = none })

    -- the end of the loop's body: the snapshot and the two points
    unfoldable pub sample : String → Bar F → Sim F W → Sim F W
    unfolding held_value snapshots_at
    sample symbol bar s = record s {
      result = record s.result {
        snapshots = s.result.snapshots ++ snapshots_at symbol bar s.holding;
        equity =
            s.result.equity
            ++ (record {
              timestamp = bar.timestamp;
              equity = s.cash ⊕ held_value s.holding bar.close;
            }
                ∷ []);
        cash = s.result.cash ++ (record { timestamp = bar.timestamp; equity = s.cash } ∷ []);
      };
    }

-- The arguments of `simulate_symbol` that the loop does not change. `generate` and `requirements`
-- are the model's; `benchmark` is `benchmark_regular`.
pub record Run (F W : Type 0) : Type 0 where
  pub symbol : String
  pub generate : String → MarketSnapshot F → Option (Position F) → W → Result (ExposureIntent F) × W
  -- `requirements.bars.lookback`, which `BarSpec` keeps positive
  pub lookback : ℕ
  -- `next(iter(requirements.context_symbols), symbol)`
  pub context_symbol : String
  pub benchmark : List (Bar F)
  pub start : Time
  pub end_exclusive : Time
  pub settings : SimulationSettings F

abbrev pub earlier_bar : {F : Type 0} → Bar F → Bar F → Bool
earlier_bar a b = leb a.timestamp b.timestamp

-- `benchmark_regular`
unfoldable pub benchmark_regular : {F : Type 0} ⦃zone : MarketZone⦄ → List (Bar F) → List (Bar F)
unfolding regular_session_bars sort_by
benchmark_regular bars = sort_by earlier_bar (regular_session_bars bars)

module _ {F W : Type 0} ⦃num : Float F⦄ ⦃zone : MarketZone⦄ (run : Run F W) where
  unfoldable pub context_bars : Bar F → Dict String (List (Bar F))
  unfolding keep
  context_bars bar =
      if run.context_symbol == run.symbol
      then []
      else (
        run.context_symbol,
        take_last run.lookback (keep (λ c. leb c.timestamp bar.timestamp) run.benchmark),
      )
        ∷ []

  -- the snapshot for `bar`, after the bars `before`
  unfoldable pub snapshot_at : List (Bar F) → Bar F → MarketSnapshot F
  unfolding context_bars
  snapshot_at before bar = record {
    bars = (run.symbol, take_last run.lookback (before ++ (bar ∷ []))) ∷ context_bars bar;
    quotes = [];
    as_of = bar.timestamp;
  }

  -- the guard of the loop, negated
  unfoldable pub is_simulated : Bar F → Bool
  unfolding is_regular_session
  is_simulated bar =
      leb run.start bar.timestamp
      && ltb bar.timestamp run.end_exclusive
      && is_regular_session bar.timestamp

  -- from `model.generate` to the end of the loop's body
  unfoldable pub ask_and_plan : List (Bar F) → Bar F → Sim F W → Result (Sim F W)
  unfolding snapshot_at plan sample lot_position
  ask_and_plan before bar s =
      let (answer, model) =
        run.generate run.symbol (snapshot_at before bar)
          (position_at run.symbol bar.close s.holding) s.model in
      answer >>= λ intent. ok (
        sample run.symbol bar (record s {
          pending = plan intent.target s.holding bar.close run.settings;
          model = model;
        }))

  -- the loop's body
  unfoldable pub simulate_bar : List (Bar F) → Bar F → Sim F W → Result (Sim F W)
  unfolding is_simulated fill_at_open ask_and_plan
  simulate_bar before bar s =
      if is_simulated bar
      then (fill_at_open run.symbol bar run.settings s.pending s >>= ask_and_plan before bar)
      else ok s

  -- the loop, after the bars `before`
  unfoldable pub simulate_bars : List (Bar F) → List (Bar F) → Sim F W → Result (Sim F W)
  unfolding simulate_bar
  simulate_bars before [] s = ok s
  simulate_bars before (bar ∷ bars) s =
      simulate_bar before bar s >>= simulate_bars (before ++ (bar ∷ [])) bars

  unfoldable pub initial_sim : W → Sim F W
  initial_sim model = record {
    cash = run.settings.capital;
    holding = none;
    pending = none;
    result = record { symbol = run.symbol; trades = []; equity = []; cash = []; snapshots = [] };
    model = model;
  }

  -- `simulate_symbol`
  unfoldable pub simulate_symbol : List (Bar F) → W → Result (SymbolResult F)
  unfolding simulate_bars initial_sim
  simulate_symbol bars model = simulate_bars [] bars (initial_sim model) >>= λ s. ok s.result
