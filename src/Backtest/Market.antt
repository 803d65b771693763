-- ===== src/Backtest/Market.antt =====
-- services/backtest/market_data.py: `HistoricalMarketDataService`.
pub mod Cut
use carcharoth.Base.{
  ℕ, zero, suc, ◌+◌, ◌-◌, String, List, [], ◌∷◌, ◌++◌, Bool, true, false, Option, none, some, ◌&&◌,
  leb, length, take, drop, last?, get_elem?, keep, map, or_else, if◌then◌else◌,
}
use carcharoth.Base.Eq.{◌==◌, nat_eq, string_eq}
use carcharoth.Base.Int.{ℤ, pos, sub_ℕ, pos_part, ◌-ℤ◌}
use carcharoth.Base.Float.{Float, ◌⊕◌, ◌⊖◌, ◌⊗◌, ◌⊘◌, one}
use carcharoth.Base.Dict.{Dict, get, put, keys}
use carcharoth.Base.Result.{Error, Result, ok, err, ◌>>=◌}
use carcharoth.Base.Sort.{sort_by, dedupe, elem}
use carcharoth.Domain.{Time, Bar, BarSpec, Quote, MarketSnapshot}
use carcharoth.Session.{MarketZone, is_regular_session}
use carcharoth.Dataset.Clean.{bar_le}

-- The lists of `_timestamps` are read off those of `_bars`.
pub record History (F : Type 0) : Type 0 where
  pub bars : Dict String (List (Bar F))
  pub spread_pct : F
  pub tradable_symbols : List String
  pub as_of : Option Time

-- `bisect_right` of a sorted list: the number of items that are not after `x`
unfoldable pub bisect_right : List ℕ → ℕ → ℕ
bisect_right [] x = 0
bisect_right (t ∷ ts) x = let rest = suc (bisect_right ts x) in if leb t x then rest else 0

-- `symbols or default`
abbrev or_keys : List String → List String → List String
or_keys [] default = default
or_keys (symbol ∷ symbols) default = symbol ∷ symbols

-- `_require_cursor`
unfoldable pub require_cursor : Option Time → Result Time
require_cursor none = err Error.market_data_error
require_cursor (some as_of) = ok as_of

module _ {F : Type 0} where
  -- `_timestamps` of a list of bars
  abbrev pub times_of : List (Bar F) → List Time
  times_of = map (λ (bar : Bar F). bar.timestamp)

  -- the regular bars of a symbol, in order
  unfoldable pub ordered_bars : ⦃zone : MarketZone⦄ → List (Bar F) → List (Bar F)
  unfolding sort_by keep is_regular_session
  ordered_bars bars = sort_by bar_le (keep (λ (bar : Bar F). is_regular_session bar.timestamp) bars)

  -- `__init__`, where no tradable symbols are an empty list of them
  unfoldable pub init :
      ⦃zone : MarketZone⦄ → Dict String (List (Bar F)) → F → List String → History F
  unfolding ordered_bars
  init bars spread_pct tradable_symbols = record {
    bars = map (λ (kv : String × List (Bar F)). (kv.0, ordered_bars kv.1)) bars;
    spread_pct = spread_pct;
    tradable_symbols = or_keys tradable_symbols (keys bars);
    as_of = none;
  }

  -- `_bars.get(symbol, [])`
  abbrev pub bars_of : History F → String → List (Bar F)
  bars_of h symbol = or_else (get h.bars symbol) []

  unfoldable pub advance_to : Time → History F → History F
  advance_to as_of h = record h { as_of = some as_of }

  -- the timestamps of a symbol, if it is tradable, in a span
  abbrev span_of : List String → Time → Time → String × List (Bar F) → List Time
  unfolding elem keep
  span_of tradable start end_ (symbol, bars) =
      if elem symbol tradable then keep (λ ts. leb start ts && leb ts end_) (times_of bars) else []

  unfoldable pub spans : List String → Time → Time → Dict String (List (Bar F)) → List Time
  unfolding elem keep
  spans tradable start end_ [] = []
  spans tradable start end_ (entry ∷ entries) =
      span_of tradable start end_ entry ++ spans tradable start end_ entries

  unfoldable pub timestamp_grid : Time → Time → History F → List Time
  unfolding sort_by dedupe spans
  timestamp_grid start end_ h = sort_by leb (dedupe (spans h.tradable_symbols start end_ h.bars))

  -- `_bars[symbol][index - 1]`, where the index is positive
  abbrev pub before : ℕ → List (Bar F) → Option (Bar F)
  before zero bars = none
  before (suc n) bars = get_elem? bars n

  -- the newest bar that is not after the cursor
  unfoldable pub newest : Time → List (Bar F) → Option (Bar F)
  unfolding bisect_right
  newest as_of bars = before (bisect_right (times_of bars) as_of) bars

  -- one round of the loop of `latest_bars`
  abbrev put_current : Time → String → Option (Bar F) → Dict String (Bar F) → Dict String (Bar F)
  put_current as_of symbol none latest = latest
  put_current as_of symbol (some bar) latest =
      if bar.timestamp == as_of then put latest symbol bar else latest

  unfoldable pub current_bars :
      History F → Time → List String → Dict String (Bar F) → Dict String (Bar F)
  unfolding newest
  current_bars h as_of [] latest = latest
  current_bars h as_of (symbol ∷ symbols) latest =
      current_bars h as_of symbols
        (put_current as_of symbol (newest as_of (bars_of h symbol)) latest)

  abbrev put_close : String → Option (Bar F) → Dict String F → Dict String F
  put_close symbol none closes = closes
  put_close symbol (some bar) closes = put closes symbol bar.close

  unfoldable pub newest_closes : History F → Time → List String → Dict String F → Dict String F
  unfolding newest
  newest_closes h as_of [] closes = closes
  newest_closes h as_of (symbol ∷ symbols) closes =
      newest_closes h as_of symbols (put_close symbol (newest as_of (bars_of h symbol)) closes)

  unfoldable pub latest_bars : History F → Result (Dict String (Bar F))
  unfolding require_cursor current_bars
  latest_bars h =
      require_cursor h.as_of >>= λ as_of. ok (current_bars h as_of h.tradable_symbols [])

  unfoldable pub latest_closes : History F → Result (Dict String F)
  unfolding require_cursor newest_closes
  latest_closes h =
      require_cursor h.as_of >>= λ as_of. ok (newest_closes h as_of h.tradable_symbols [])

  -- the slice `[max(0, index - lookback) : index]`
  unfoldable pub window_of : Time → ℤ → List (Bar F) → List (Bar F)
  unfolding bisect_right ◌-ℤ◌
  window_of as_of lookback bars =
      let index = bisect_right (times_of bars) as_of in
      drop (pos_part (pos index -ℤ lookback)) (take index bars)

module _ {F : Type 0} ⦃num : Float F⦄ where
  -- `_synthetic_quote`
  unfoldable pub synthetic_quote : History F → String → Time → Bar F → Quote F
  synthetic_quote h symbol as_of bar =
      let half_spread = h.spread_pct ⊘ num.of_int (pos 2) in
      record {
        symbol = symbol;
        timestamp = as_of;
        bid_price = bar.close ⊗ (one ⊖ half_spread);
        ask_price = bar.close ⊗ (one ⊕ half_spread);
        bid_size = num.of_int (pos 100);
        ask_size = num.of_int (pos 100);
      }

  -- the quote of a window that is not empty
  abbrev pub put_quote :
      History F → String → Time → Option (Bar F) → Dict String (Quote F) → Dict String (Quote F)
  unfolding synthetic_quote
  put_quote h symbol as_of none quotes = quotes
  put_quote h symbol as_of (some bar) quotes =
      put quotes symbol (synthetic_quote h symbol as_of bar)

  -- the loop of `get_snapshot`
  unfoldable pub fill_snapshot :
      History F → Time → ℤ → List String → MarketSnapshot F → MarketSnapshot F
  unfolding window_of synthetic_quote
  fill_snapshot h as_of lookback [] snapshot = snapshot
  fill_snapshot h as_of lookback (symbol ∷ symbols) snapshot =
      let window = window_of as_of lookback (bars_of h symbol) in
      fill_snapshot h as_of lookback symbols (record snapshot {
        bars = put snapshot.bars symbol window;
        quotes = put_quote h symbol as_of (last? window) snapshot.quotes;
      })

  unfoldable pub get_snapshot : List String → BarSpec → History F → Result (MarketSnapshot F)
  unfolding require_cursor fill_snapshot
  get_snapshot symbols spec h = require_cursor h.as_of >>= λ as_of. ok (
      fill_snapshot h as_of spec.lookback symbols
        (record { bars = []; quotes = []; as_of = as_of }))
