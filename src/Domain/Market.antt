-- ===== src/Domain/Market.antt =====
-- Bars, quotes and the market snapshot of domain/models.py. An aware `datetime` is the number of
-- microseconds since an epoch.
use carcharoth.Base.{ℕ, String, List, Bool, true, false, ◌&&◌, not}
use carcharoth.Base.Int.{ℤ, pos, ltb_ℤ, leb_ℤ}
use carcharoth.Base.Float.{Float, ◌⊕◌, ◌⊘◌}
use carcharoth.Base.Dict.{Dict}
use carcharoth.Base.Result.{Error, Result, ok, raise_if, ◌>>◌}
use carcharoth.Domain.Enums.{TimeframeUnit}

abbrev pub Time : Type 0
Time = ℕ

pub record Timeframe : Type 0 where
  pub amount : ℤ
  pub unit : TimeframeUnit

abbrev is_day : TimeframeUnit → Bool
is_day TimeframeUnit.day = true
is_day TimeframeUnit.minute = false

-- `Timeframe(amount, unit)`: the fields, then `__post_init__`
unfoldable pub make_timeframe : ℤ → TimeframeUnit → Result Timeframe
make_timeframe amount unit = do
  raise_if (ltb_ℤ amount (pos 1)) Error.value_error
  raise_if (is_day unit && not (leb_ℤ amount (pos 1))) Error.value_error
  ok (record { amount = amount; unit = unit })

-- `Timeframe.minutes` and `Timeframe.daily`
unfoldable pub minutes : ℤ → Result Timeframe
unfolding make_timeframe
minutes amount = make_timeframe amount TimeframeUnit.minute

unfoldable pub daily : Result Timeframe
unfolding make_timeframe
daily = make_timeframe (pos 1) TimeframeUnit.day

pub record BarSpec : Type 0 where
  pub timeframe : Timeframe
  pub lookback : ℤ

-- `BarSpec(timeframe, lookback)`
unfoldable pub make_bar_spec : Timeframe → ℤ → Result BarSpec
make_bar_spec timeframe lookback = do
  raise_if (ltb_ℤ lookback (pos 1)) Error.value_error
  ok (record { timeframe = timeframe; lookback = lookback })

pub record Bar (F : Type 0) : Type 0 where
  pub symbol : String
  pub timestamp : Time
  pub open_price : F
  pub high : F
  pub low : F
  pub close : F
  pub volume : F

pub record Quote (F : Type 0) : Type 0 where
  pub symbol : String
  pub timestamp : Time
  pub bid_price : F
  pub ask_price : F
  pub bid_size : F
  pub ask_size : F

-- `Quote.mid`
unfoldable pub mid : {F : Type 0} ⦃num : Float F⦄ → Quote F → F
mid ⦃num⦄ q = (q.bid_price ⊕ q.ask_price) ⊘ num.of_int (pos 2)

pub record MarketSnapshot (F : Type 0) : Type 0 where
  pub bars : Dict String (List (Bar F))
  pub quotes : Dict String (Quote F)
  pub as_of : Time

pub record MarketDataRequirements : Type 0 where
  pub bars : BarSpec
  -- the elements of the frozen set, each once
  pub context_symbols : List String
