-- ===== src/Dataset/Clean.antt =====
-- modeling/dataset.py: `_clean`, and what the other parts share.
use carcharoth.Base.{
  ℕ, String, List, [], ◌∷◌, ◌++◌, Bool, true, false, Option, none, some, ◌&&◌, ◌||◌, not, leb,
  is_some, if◌then◌else◌,
}
use carcharoth.Base.Eq.{◌==◌, nat_eq, string_eq}
use carcharoth.Base.Float.{Float, ◌≺◌, nought, fmin, fmax}
use carcharoth.Base.Dict.{Dict, get, put, values}
use carcharoth.Base.Sort.{sort_by}
use carcharoth.Base.Result.{Error, Result, ok, err, ◌>>=◌}
use carcharoth.Domain.{Time, Bar}
use carcharoth.Session.{MarketZone, is_regular_session}

-- `math.isfinite`, `math.log` of a positive number and `np.isfinite`
pub record Reals (F : Type 0) : Type 0 where
  pub is_finite : F → Bool
  pub log : F → F

-- `PreparedSymbol`
pub record PreparedSymbol (F : Type 0) : Type 0 where
  pub bars : List (Bar F)
  pub matrix : List (List F)
  pub errors : List (Time × String)

-- the locals of `_clean`
pub record Cleaned (F : Type 0) : Type 0 where
  pub rows : Dict Time (Bar F)
  pub errors : List (Time × String)

abbrev pub on_grid : Option (Dict Time ℕ) → Time → Bool
on_grid none ts = true
on_grid (some grid) ts = is_some (get grid ts)

module _ {F : Type 0} where
  abbrev pub bar_le : Bar F → Bar F → Bool
  bar_le a b = leb a.timestamp b.timestamp

module _ {F : Type 0} ⦃num : Float F⦄ where
  -- `==` of two bars
  abbrev pub same_bar : Bar F → Bar F → Bool
  same_bar a b =
      a.symbol == b.symbol
      && a.timestamp == b.timestamp
      && num.eq a.open_price b.open_price
      && num.eq a.high b.high
      && num.eq a.low b.low
      && num.eq a.close b.close
      && num.eq a.volume b.volume

  abbrev is_price : Reals F → F → Bool
  is_price reals p = reals.is_finite p && nought ≺ p

  -- the test of the prices and the volume, negated
  unfoldable pub is_valid_ohlcv : Reals F → Bar F → Bool
  is_valid_ohlcv reals bar =
      let highest = fmax (fmax (fmax bar.open_price bar.high) bar.low) bar.close in
      let lowest = fmin (fmin (fmin bar.open_price bar.high) bar.low) bar.close in
      is_price reals bar.open_price
      && is_price reals bar.high
      && is_price reals bar.low
      && is_price reals bar.close
      && reals.is_finite bar.volume
      && not (bar.volume ≺ nought)
      && not (bar.high ≺ highest)
      && not (lowest ≺ bar.low)

  -- `previous is not None and previous != bar`
  abbrev conflicts : Option (Bar F) → Bar F → Bool
  conflicts none bar = false
  conflicts (some previous) bar = not (same_bar previous bar)

  unfoldable pub keep_bar : Bar F → Cleaned F → Cleaned F
  keep_bar bar c =
      if conflicts (get c.rows bar.timestamp) bar
      then record c { errors = c.errors ++ ((bar.timestamp, "conflicting_duplicate") ∷ []) }
      else record c { rows = put c.rows bar.timestamp bar }

  -- the body of the loop; every timestamp is aware
  unfoldable pub clean_bar :
      ⦃zone : MarketZone⦄
      → Reals F
      → String
      → Option (Dict Time ℕ)
      → Bar F
      → Cleaned F
      → Result (Cleaned F)
  unfolding is_regular_session is_valid_ohlcv keep_bar
  clean_bar reals symbol grid bar c =
      if not (bar.symbol == symbol)
      then err Error.value_error
      else if not (on_grid grid bar.timestamp) || not (is_regular_session bar.timestamp)
      then ok c
      else if is_valid_ohlcv reals bar
      then ok (keep_bar bar c)
      else ok (record c { errors = c.errors ++ ((bar.timestamp, "invalid_ohlcv") ∷ []) })

  unfoldable pub clean_bars :
      ⦃zone : MarketZone⦄
      → Reals F
      → String
      → Option (Dict Time ℕ)
      → List (Bar F)
      → Cleaned F
      → Result (Cleaned F)
  unfolding clean_bar
  clean_bars reals symbol grid [] c = ok c
  clean_bars reals symbol grid (bar ∷ bars) c =
      clean_bar reals symbol grid bar c >>= clean_bars reals symbol grid bars

  -- `_clean`
  unfoldable pub clean :
      ⦃zone : MarketZone⦄
      → Reals F
      → String
      → List (Bar F)
      → Option (Dict Time ℕ)
      → Result (List (Bar F) × List (Time × String))
  unfolding clean_bars sort_by
  clean reals symbol bars grid = do
    c ← clean_bars reals symbol grid bars (record { rows = []; errors = [] })
    ok (sort_by bar_le (values c.rows), c.errors)
