-- ===== src/Domain/Laws.antt =====
-- Facts about the types of domain/models.py.
use carcharoth.Base.{Option, none, some, arith, ◌≢◌}
use carcharoth.Base.Float.{Float}
use carcharoth.Domain.{TargetExposure, Position, current_exposure}

module _ {F : Type 0} ⦃num : Float F⦄ where
  -- UNCHANGED is an intent and never the state of a position
  pub current_exposure-ne-unchanged :
      (p : Option (Position F)) → current_exposure p ≢ TargetExposure.unchanged
  unfolding current_exposure
  current_exposure-ne-unchanged none h = cc
  current_exposure-ne-unchanged (some p) h = ground arith
