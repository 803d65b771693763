-- ===== src/Session.antt =====
-- features/session.py: the hours of the regular session, in the time zone of the market.
use carcharoth.Base.{ℕ, Bool, List, [], Option, none, some, ◌&&◌, leb, ltb, keep, last?}
use carcharoth.Base.Eq.{◌==◌, nat_eq}
use carcharoth.Base.Int.{ℤ, pos, sub_ℕ}
use carcharoth.Base.Float.{Float, ◌⊘◌}
use carcharoth.Domain.{Time, Bar}

-- `zoneinfo`: what `astimezone(MARKET_TZ)` reads off an instant
pub record MarketZone : Type 0 where
  -- the ordinal of the local date
  pub local_date : Time → ℕ
  -- the microseconds that the wall clock shows past midnight
  pub time_of_day : Time → ℕ

abbrev pub minute_length : ℕ
minute_length = 60_000_000

-- 9:30 and 16:00
abbrev pub session_open : ℕ
session_open = 34_200_000_000

abbrev pub session_close : ℕ
session_close = 57_600_000_000

module _ ⦃zone : MarketZone⦄ where
  unfoldable pub is_regular_session : Time → Bool
  is_regular_session ts =
      let local = zone.time_of_day ts in leb session_open local && ltb local session_close

  module _ {F : Type 0} where
    unfoldable pub regular_session_bars : List (Bar F) → List (Bar F)
    unfolding is_regular_session keep
    regular_session_bars bars = keep (λ bar. is_regular_session bar.timestamp) bars

    in_session_of : Option (Bar F) → List (Bar F) → List (Bar F)
    unfolding is_regular_session keep
    in_session_of none bars = []
    in_session_of (some latest) bars =
        let session_date = zone.local_date latest.timestamp in
        keep
          (λ bar. is_regular_session bar.timestamp && zone.local_date bar.timestamp == session_date)
          bars

    -- `if not bars: return []` is the case of no latest bar
    unfoldable pub current_session_bars : List (Bar F) → List (Bar F)
    unfolding in_session_of
    current_session_bars bars = in_session_of (last? bars) bars

  module _ {F : Type 0} ⦃num : Float F⦄ where
    -- `timedelta.total_seconds() / 60.0`
    unfoldable pub minutes_of : ℤ → F
    minutes_of micros = num.of_int micros ⊘ num.of_int (pos 1_000_000) ⊘ num.of_int (pos 60)

    unfoldable pub minutes_until_close : Time → F
    minutes_until_close ts = minutes_of (sub_ℕ session_close (zone.time_of_day ts))

    unfoldable pub minutes_since_open : Time → F
    minutes_since_open ts = minutes_of (sub_ℕ (zone.time_of_day ts) session_open)
