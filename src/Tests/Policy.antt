-- ===== src/Tests/Policy.antt =====
-- The decision policy and the risk manager on concrete inputs.
use carcharoth.Base.{◌≤◌, arith, [], ◌∷◌, true, false, none, some, ◌≡◌, ◌⊎◌, refl}
use carcharoth.Base.Eq.{string_eq}
use carcharoth.Base.Int.{ℤ, pos, negsuc, ◌+ℤ◌, ◌-ℤ◌, ◌*ℤ◌}
use carcharoth.Base.Float.{◌≺◌, ◌≼◌}
use carcharoth.Base.Float.Whole.{whole, whole-IsFloat}
use carcharoth.Base.Dict.{Dict, get}
use carcharoth.Base.Result.{ok, is_ok}
use carcharoth.Domain.{
  TargetExposure, ModelTask, Prediction, RiskDecision, OrderRequest, Side, current_exposure,
  make_prediction,
}
use carcharoth.Decision.{
  DecisionPolicyConfig, validate_config, regression_target, classification, entries_allowed, decide,
}
use carcharoth.Decision.Safety.{decide_opens_nothing}
use carcharoth.Decision.Thresholds.{rank, regression_target_mono, regression_hysteresis}
use carcharoth.Decision.Classes.{IsItem, IsLargest, classification-IsLargest}
use carcharoth.Decision.Totality.{decide_total}
use carcharoth.Risk.{
  RiskConfig, assess, assess_transition, assess_close, assess_entry, price_entry, size_entry,
  fund_entry, check_exposure, daily_loss_hit, entry_side, entry_price, position_budget,
  affordable_qty,
}
use carcharoth.Risk.Closing.{IsSigned, assess_closes_all}
use carcharoth.Risk.Limits.{IsSafeEntry, assess_entry_limits}
use carcharoth.Broker.Account.{Broker, get_account_state, position_of}
use carcharoth.Broker.Fills.{apply_fill}
use carcharoth.Tests.Replay.{bought}
use carcharoth.Tests.Setting.{utc, plain, position, quote, intent, account}

abbrev policy : DecisionPolicyConfig ℤ
policy = record {
  long_entry_threshold = pos 5;
  short_entry_threshold = negsuc 4;
  long_exit_threshold = pos 1;
  short_exit_threshold = pos 0;
  class_probability_threshold = pos 1;
  entry_delay_minutes = pos 15;
  entry_cutoff_minutes = pos 15;
  flatten_minutes = pos 10;
}

abbrev return_of_six : Prediction ℤ
return_of_six = record {
  task = ModelTask.regression;
  expected_return = some (pos 6);
  probabilities = [];
}

-- twelve minutes before the close a long position is kept
decide_opens_nothing_example : TargetExposure.long ≡ current_exposure (some (position (pos 3)))
decide_opens_nothing_example =
    decide_opens_nothing policy return_of_six (some (position (pos 3))) (pos 60) (pos 12)
      TargetExposure.long "expected_return=n -> long" (unfold entries_allowed in refl)
      (unfold decide in refl) refl

regression_target_mono_example :
    rank (regression_target policy (pos 2) TargetExposure.long)
    ≤ rank (regression_target policy (pos 3) TargetExposure.long)
regression_target_mono_example =
    regression_target_mono whole-IsFloat policy TargetExposure.long (pos 2) (pos 3) refl

regression_hysteresis_example :
    regression_target policy (pos 6) TargetExposure.long ≡ TargetExposure.long
regression_hysteresis_example =
    regression_hysteresis whole-IsFloat policy (pos 6) (unfold validate_config in refl) refl refl
      refl refl TargetExposure.long (unfold regression_target in refl)

abbrev classes : Dict TargetExposure ℤ
classes =
    (TargetExposure.long, pos 2) ∷ (TargetExposure.short, pos 7) ∷ (TargetExposure.flat, pos 1) ∷ []

classification-IsLargest_example :
    (TargetExposure.short ≡ TargetExposure.flat)
    ⊎ ((p : ℤ) × IsItem (TargetExposure.short, p) classes
        × IsLargest p classes
        × (p ≺ policy.class_probability_threshold ≡ false))
classification-IsLargest_example =
    classification-IsLargest whole-IsFloat policy classes TargetExposure.short
      (unfold classification in refl)

decide_total_example : is_ok (decide policy return_of_six none (pos 60) (pos 60)) ≡ true
decide_total_example =
    decide_total policy ModelTask.regression (some (pos 6)) [] return_of_six none (pos 60) (pos 60)
      (unfold make_prediction in refl)

abbrev limits : RiskConfig ℤ
limits = record {
  max_position_notional = pos 100;
  max_position_pct_equity = pos 1;
  max_total_exposure_pct = pos 1;
  max_open_positions = 5;
  buying_power_buffer = pos 1;
  slippage_buffer = pos 0;
  max_daily_loss_pct = pos 1;
}

-- a reversal closes the long position first
abbrev closing : RiskDecision ℤ
closing = record {
  intent = intent TargetExposure.short;
  approved = true;
  qty = pos 3;
  side = some Side.sell;
  reason = "approved: closing long before reversal";
}

abbrev closing_request : OrderRequest ℤ
closing_request = record { symbol = "A"; side = Side.sell; qty = pos 3; client_order_id = some "c" }

whole-IsSigned : IsSigned ℤ
whole-IsSigned = record {
  abs_positive = λ x h. ground arith;
  abs_negative = λ x h. ground arith;
  abs_zero = λ x h. ground arith;
  trichotomy = λ x f p z. ground arith;
}

closing_assessed :
    assess limits (intent TargetExposure.short) (get_account_state bought) quote ≡ ok closing
unfolding assess assess_transition assess_close get get_account_state position_of current_exposure
closing_assessed = refl

assess_closes_all_example :
    (pos 3 ≼ pos 0 ≡ false)
    × ((b' : Broker ℤ) × (apply_fill bought closing_request (pos 12) ≡ (ok tt, b'))
        × (get b'.holdings "A" ≡ none))
unfolding ◌+ℤ◌
assess_closes_all_example =
    assess_closes_all whole-IsSigned limits bought (intent TargetExposure.short) quote
      (record { qty = pos 3; avg_entry_price = pos 11 }) closing closing_request (pos 12)
      (unfold get in refl) refl closing_assessed refl refl refl refl

abbrev opening : RiskDecision ℤ
opening = record {
  intent = intent TargetExposure.long;
  approved = true;
  qty = pos 10;
  side = some Side.buy;
  reason = "approved: open long n shares (~n)";
}

assess_entry_limits_example : IsSafeEntry limits (intent TargetExposure.long) account quote opening
assess_entry_limits_example =
    assess_entry_limits limits (intent TargetExposure.long) account quote opening
      (unfold get in refl)
      (unfold assess assess_transition assess_entry price_entry size_entry fund_entry check_exposure
          get daily_loss_hit entry_side entry_price current_exposure position_budget affordable_qty
          ◌+ℤ◌ ◌-ℤ◌ ◌*ℤ◌ in
        refl)
      refl
