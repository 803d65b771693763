-- ===== src/Decision/Safety.antt =====
-- modeling/decision.py: the session window and the policy.
use carcharoth.Base.{String, true, false, Option, arith, ◌≡◌, ◌≢◌}
use carcharoth.Base.Float.{Float}
use carcharoth.Base.Format.{Format}
use carcharoth.Base.Result.{ok}
use carcharoth.Domain.{TargetExposure, Prediction, Position, current_exposure}
use carcharoth.Domain.Laws.{current_exposure-ne-unchanged}
use carcharoth.Decision.{DecisionPolicyConfig, is_directional, gate_entry, entries_allowed, decide}

module _ {F : Type 0} ⦃num : Float F⦄ ⦃fmt : Format F⦄ where
  gate_entry_blocked :
      (prediction : Prediction F) (current target : TargetExposure)
      → current ≢ TargetExposure.unchanged
      → is_directional (gate_entry prediction current false target).0 ≡ true
      → (gate_entry prediction current false target).0 ≡ current
  unfolding gate_entry
  gate_entry_blocked prediction current target u h = ground arith

  -- While entries are not allowed (too soon after the open, or too close to the close), a decision
  -- for a long or a short exposure is for the exposure that is held already.
  pub decide_opens_nothing :
      (config : DecisionPolicyConfig F) (prediction : Prediction F) (position : Option (Position F))
      (since_open to_close : F) (target : TargetExposure) (reason : String)
      → entries_allowed config since_open to_close ≡ false
      → decide config prediction position since_open to_close ≡ ok (target, reason)
      → is_directional target ≡ true
      → target ≡ current_exposure position
  unfolding decide
  decide_opens_nothing config prediction position since_open to_close target reason blocked h d =
      let current = current_exposure position in
      ground (arith, gate_entry_blocked prediction current, current_exposure-ne-unchanged position)
