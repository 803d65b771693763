-- ===== src/Config/Windows.antt =====
-- config/app_config.py and modeling/decision.py: the windows that a valid configuration gives.
use carcharoth.Base.{true, false, arith, ◌≡◌}
use carcharoth.Base.Int.{ℤ, ltb_ℤ, leb_ℤ}
use carcharoth.Base.Float.{Float, ◌≼◌, IsFloat}
use carcharoth.Base.Result.{ok, >>=-eq-ok}
use carcharoth.Decision.{entries_allowed}
use carcharoth.Config.{ModelConfig}
use carcharoth.Config.Validate.{validate_model, validate_model_fields, session_timing}

module _ {F P : Type 0} ⦃num : Float F⦄ where
  session_timing_order :
      (c : ModelConfig F P)
      → session_timing c ≡ ok c
      → ltb_ℤ c.decision.entry_cutoff_minutes c.decision.flatten_minutes ≡ false
  unfolding session_timing
  session_timing_order c timed = ground arith

  validate_model_timing :
      (c : ModelConfig F P)
      → validate_model c ≡ ok c
      → ltb_ℤ c.decision.entry_cutoff_minutes c.decision.flatten_minutes ≡ false
  unfolding validate_model
  validate_model_timing c valid =
      let (u, fields, timed) = >>=-eq-ok (validate_model_fields c) _ valid in
      session_timing_order c timed

  -- Under a model configuration that the validators accept, the policy allows no entry in the minutes
  -- before the close in which a position must be flattened, given that the conversion of integers to
  -- floats keeps their order.
  pub entries_allowed_clear :
      IsFloat F
      → ((m n : ℤ) → leb_ℤ m n ≡ true → num.of_int m ≼ num.of_int n ≡ true)
      → (c : ModelConfig F P) (since_open to_close : F) → validate_model c ≡ ok c
      → entries_allowed c.decision since_open to_close ≡ true
      → to_close ≼ num.of_int c.decision.flatten_minutes ≡ false
  unfolding entries_allowed
  entries_allowed_clear laws mono c since_open to_close valid allowed =
      let d = c.decision in
      let ordered : leb_ℤ d.flatten_minutes d.entry_cutoff_minutes ≡ true =
        ground (arith, validate_model_timing c valid) in
      ground (
        arith,
        allowed,
        mono d.flatten_minutes d.entry_cutoff_minutes ordered,
        laws.le_trans to_close (num.of_int d.flatten_minutes) (num.of_int d.entry_cutoff_minutes),
        laws.not-le-of-lt (num.of_int d.entry_cutoff_minutes) to_close,
      )
