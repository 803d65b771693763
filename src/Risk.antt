-- ===== src/Risk.antt =====
-- risk/basic.py: the rule-based risk manager. The configuration is `RiskConfig` of
-- config/app_config.py. Where `math.floor` or a division raises, `assess` raises.
pub mod Closing
pub mod Limits
use Prim.Native.String.{◌++◌}
use carcharoth.Base.{
  ℕ, String, List, Bool, true, false, Option, none, some, is_some, length, map, if◌then◌else◌, leb,
  not,
}
use carcharoth.Base.Int.{ℤ, pos, ltb_ℤ}
use carcharoth.Base.Eq.{string_eq}
use carcharoth.Base.Float.{
  Float, ◌⊕◌, ◌⊖◌, ◌⊗◌, ◌≺◌, ◌≼◌, nought, one, divide, floor_or_raise, fmin,
}
use carcharoth.Base.Format.{Format}
use carcharoth.Base.Dict.{Dict, get, values}
use carcharoth.Base.Result.{Error, Result, ok, err, ◌>>=◌}
use carcharoth.Domain.{
  TargetExposure, Side, same_exposure, Position, current_exposure, gross_market_value, AccountState,
  Quote, ExposureIntent, RiskDecision,
}
use carcharoth.Decision.{exposure_value}

pub record RiskConfig (F : Type 0) : Type 0 where
  pub max_position_notional : F
  pub max_position_pct_equity : F
  pub max_total_exposure_pct : F
  pub max_open_positions : ℕ
  pub buying_power_buffer : F
  pub slippage_buffer : F
  pub max_daily_loss_pct : F

-- `Side.value`
abbrev pub side_value : Side → String
side_value Side.buy = "buy"
side_value Side.sell = "sell"

-- `side` of an entry
unfoldable pub entry_side : TargetExposure → Side
entry_side target = if same_exposure target TargetExposure.long then Side.buy else Side.sell

module _ {F : Type 0} ⦃num : Float F⦄ where
  -- `BasicRiskManager._reject`
  unfoldable pub reject : ExposureIntent F → String → RiskDecision F
  reject intent reason = record {
    intent = intent;
    approved = false;
    qty = nought;
    side = none;
    reason = "rejected: " ++ reason;
  }

  unfoldable pub approve : ExposureIntent F → F → Side → String → RiskDecision F
  approve intent qty side reason = record {
    intent = intent;
    approved = true;
    qty = qty;
    side = some side;
    reason = reason;
  }

  -- `price` of an entry
  unfoldable pub entry_price : Side → Quote F → F
  entry_price Side.buy quote = quote.ask_price
  entry_price Side.sell quote = quote.bid_price

  -- `gross_exposure`
  unfoldable pub gross_exposure : AccountState F → F
  unfolding gross_market_value
  gross_exposure account = num.total (map gross_market_value (values account.positions))

  -- `notional`
  unfoldable pub position_budget : RiskConfig F → AccountState F → F
  position_budget config account =
      fmin config.max_position_notional (config.max_position_pct_equity ⊗ account.equity)

  -- `available`
  unfoldable pub available_power : RiskConfig F → AccountState F → F
  available_power config account = account.buying_power ⊗ config.buying_power_buffer

  -- the quantity once buying power is counted
  unfoldable pub affordable_qty : RiskConfig F → AccountState F → F → ℤ → Result ℤ
  unfolding available_power
  affordable_qty config account price qty =
      let available = available_power config account in
      if available ≺ num.of_int qty ⊗ price ⊗ (one ⊕ config.slippage_buffer)
      then (do
        shares ← divide available (price ⊗ (one ⊕ config.slippage_buffer))
        floor_or_raise shares)
      else ok qty

  -- `daily_return < -config.max_daily_loss_pct`, where there was equity at the last close
  unfoldable pub daily_loss_hit : RiskConfig F → AccountState F → Result Bool
  daily_loss_hit config account =
      if nought ≺ account.last_equity
      then (do
        daily_return ← divide (account.equity ⊖ account.last_equity) account.last_equity
        ok (daily_return ≺ num.neg config.max_daily_loss_pct))
      else ok false

  module _ ⦃fmt : Format F⦄ where
    -- the last check of `_assess_entry`, and the approval
    unfoldable pub check_exposure :
        RiskConfig F
        → ExposureIntent F
        → TargetExposure
        → AccountState F
        → Side
        → F
        → ℤ
        → RiskDecision F
    unfolding gross_exposure reject approve
    check_exposure config intent target account side price qty =
        let gross = gross_exposure account in
        let max_exposure = config.max_total_exposure_pct ⊗ account.equity in
        if max_exposure ≺ gross ⊕ num.of_int qty ⊗ price
        then reject intent (
            "gross exposure limit reached ("
            ++ fmt.fixed 2 gross
            ++ " + new > "
            ++ fmt.fixed 2 max_exposure
            ++ ")")
        else approve intent (num.of_int qty) side (
            "approved: open "
            ++ exposure_value target
            ++ " "
            ++ fmt.whole_number qty
            ++ " shares (~"
            ++ fmt.fixed 2 (num.of_int qty ⊗ price)
            ++ ")")

    -- the size that buying power allows
    unfoldable pub fund_entry :
        RiskConfig F
        → ExposureIntent F
        → TargetExposure
        → AccountState F
        → Side
        → F
        → ℤ
        → Result (RiskDecision F)
    fund_entry config intent target account side price first = do
      qty ← affordable_qty config account price first
      ok (
          if ltb_ℤ qty (pos 1)
          then reject intent "insufficient buying power"
          else check_exposure config intent target account side price qty)

    -- from `notional` on: the size of the entry
    unfoldable pub size_entry :
        RiskConfig F
        → ExposureIntent F
        → TargetExposure
        → AccountState F
        → Side
        → F
        → Result (RiskDecision F)
    size_entry config intent target account side price = do
      let notional = position_budget config account
      budget ← divide notional price
      first ← floor_or_raise budget
      (if ltb_ℤ first (pos 1)
          then ok (
              reject intent (
                "price "
                ++ fmt.fixed 2 price
                ++ " exceeds position budget "
                ++ fmt.fixed 2 notional))
          else fund_entry config intent target account side price first)

    -- the check of the price
    unfoldable pub price_entry :
        RiskConfig F
        → ExposureIntent F
        → TargetExposure
        → AccountState F
        → Side
        → Quote F
        → Result (RiskDecision F)
    price_entry config intent target account side quote =
        let price = entry_price side quote in
        if price ≼ nought
        then ok (reject intent ("no valid " ++ side_value side ++ " price"))
        else size_entry config intent target account side price

    -- `BasicRiskManager._assess_entry`
    unfoldable pub assess_entry :
        RiskConfig F
        → ExposureIntent F
        → TargetExposure
        → AccountState F
        → Quote F
        → Result (RiskDecision F)
    assess_entry config intent target account quote = do
      hit ← daily_loss_hit config account
      (if hit
          then ok (
              reject intent (
                "daily loss limit hit ("
                ++ fmt.percent 2
                    (num.div (account.equity ⊖ account.last_equity) account.last_equity)
                ++ " < -"
                ++ fmt.percent 2 config.max_daily_loss_pct
                ++ ")"))
          else if leb config.max_open_positions (length account.positions)
          then ok (
              reject intent (
                "max open positions reached ("
                ++ fmt.whole_number (pos config.max_open_positions)
                ++ ")"))
          else price_entry config intent target account (entry_side target) quote)

    -- the transition away from an open position
    unfoldable pub assess_close :
        ExposureIntent F → TargetExposure → TargetExposure → Position F → RiskDecision F
    unfolding reject approve
    assess_close intent target current position =
        let qty = num.abs position.qty in
        if qty ≼ nought
        then reject intent "position has zero quantity"
        else approve intent qty (if nought ≺ position.qty then Side.sell else Side.buy) (
            "approved: closing "
            ++ exposure_value current
            ++ (if same_exposure target TargetExposure.flat then "" else " before reversal"))

    -- what follows the two tests on the target
    unfoldable pub assess_transition :
        RiskConfig F
        → ExposureIntent F
        → AccountState F
        → Quote F
        → Option (Position F)
        → Result (RiskDecision F)
    assess_transition config intent account quote (some position) =
        ok (assess_close intent intent.target (current_exposure (some position)) position)
    assess_transition config intent account quote none =
        if same_exposure intent.target TargetExposure.flat
        then ok (reject intent "already flat")
        else assess_entry config intent intent.target account quote

    -- `BasicRiskManager.assess`
    unfoldable pub assess :
        RiskConfig F → ExposureIntent F → AccountState F → Quote F → Result (RiskDecision F)
    assess config intent account quote =
        let position = get account.positions intent.symbol in
        let current = current_exposure position in
        let target = intent.target in
        if same_exposure target TargetExposure.unchanged
        then ok (reject intent "unchanged target")
        else if same_exposure target current
        then ok (reject intent ("already " ++ exposure_value current ++ " (no pyramiding)"))
        else assess_transition config intent account quote position
