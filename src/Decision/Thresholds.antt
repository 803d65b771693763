-- ===== src/Decision/Thresholds.antt =====
-- modeling/decision.py: the thresholds of a regression policy.
use carcharoth.Base.{ℕ, ◌≤◌, true, false, arith, ◌≡◌}
use carcharoth.Base.Float.{Float, IsFloat, ◌≼◌, ◌≺◌}
use carcharoth.Base.Result.{ok}
use carcharoth.Domain.{TargetExposure}
use carcharoth.Decision.{DecisionPolicyConfig, regression_target, validate_config}

-- short below flat below long
abbrev pub rank : TargetExposure → ℕ
rank TargetExposure.short = 0
rank TargetExposure.long = 2
rank _ = 1

-- What the validator leaves of the two exit thresholds.
validate_config_order :
    {F : Type 0} ⦃num : Float F⦄ (c : DecisionPolicyConfig F)
    → validate_config c ≡ ok c
    → (c.long_entry_threshold ≺ c.long_exit_threshold ≡ false)
      × (c.short_exit_threshold ≺ c.short_entry_threshold ≡ false)
unfolding validate_config
validate_config_order c h = (ground arith, ground arith)

module _ {F : Type 0} ⦃num : Float F⦄ (laws : IsFloat F) where
  -- From any exposure that is held, a larger predicted return never gives a smaller exposure.
  pub regression_target_mono :
      (config : DecisionPolicyConfig F) (current : TargetExposure) (v w : F)
      → v ≼ w ≡ true
      → rank (regression_target config v current) ≤ rank (regression_target config w current)
  unfolding regression_target
  regression_target_mono config TargetExposure.long v w h = ground (
    arith,
    laws.le_trans config.long_exit_threshold v w,
    laws.le_trans v w config.short_entry_threshold,
  )
  regression_target_mono config TargetExposure.short v w h = ground (
    arith,
    laws.le_trans config.long_entry_threshold v w,
    laws.le_trans v w config.short_exit_threshold,
  )
  regression_target_mono config TargetExposure.flat v w h = ground (
    arith,
    laws.le_trans config.long_entry_threshold v w,
    laws.le_trans v w config.short_entry_threshold,
  )
  regression_target_mono config TargetExposure.unchanged v w h = ground (
    arith,
    laws.le_trans config.long_entry_threshold v w,
    laws.le_trans v w config.short_entry_threshold,
  )

  -- Under a configuration that the validator accepts, with thresholds that are no NaN, a return that
  -- opens a position from flat keeps the same position once it is held, on both sides.
  pub regression_hysteresis :
      (config : DecisionPolicyConfig F) (v : F)
      → validate_config config ≡ ok config
      → config.long_entry_threshold ≼ config.long_entry_threshold ≡ true
      → config.long_exit_threshold ≼ config.long_exit_threshold ≡ true
      → config.short_entry_threshold ≼ config.short_entry_threshold ≡ true
      → config.short_exit_threshold ≼ config.short_exit_threshold ≡ true
      → (held : TargetExposure) → regression_target config v TargetExposure.flat ≡ held
      → regression_target config v held ≡ held
  unfolding regression_target
  regression_hysteresis config v valid a b c d held h =
      let order = validate_config_order config valid in
      ground (
        arith,
        order.0,
        order.1,
        laws.le-of-not-lt config.long_entry_threshold config.long_exit_threshold a b order.0,
        laws.le-of-not-lt config.short_exit_threshold config.short_entry_threshold d c order.1,
        laws.le_trans config.long_exit_threshold config.long_entry_threshold v,
        laws.le_trans v config.short_entry_threshold config.short_exit_threshold,
      )
