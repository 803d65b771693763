-- ===== src/Decision/Totality.antt =====
-- modeling/decision.py: the policy on the predictions that the constructor of `Prediction` accepts.
use carcharoth.Base.{[], ◌∷◌, true, Option, none, some, arith, ◌≡◌}
use carcharoth.Base.Float.{Float}
use carcharoth.Base.Format.{Format}
use carcharoth.Base.Dict.{Dict}
use carcharoth.Base.Result.{ok, is_ok}
use carcharoth.Domain.{
  TargetExposure, ModelTask, Prediction, Position, current_exposure, make_prediction,
}
use carcharoth.Decision.{DecisionPolicyConfig, model_target, decide}

module _ {F : Type 0} ⦃num : Float F⦄ where
  model_target_total :
      (config : DecisionPolicyConfig F) (current : TargetExposure) (task : ModelTask)
      (expected : Option F) (probabilities : Dict TargetExposure F) (prediction : Prediction F)
      → make_prediction task expected probabilities ≡ ok prediction
      → is_ok (model_target config prediction current) ≡ true
  unfolding make_prediction model_target
  model_target_total config current ModelTask.regression none ps prediction h = cc
  model_target_total config current ModelTask.regression (some v) ps prediction h = ground arith
  model_target_total config current ModelTask.classification e [] prediction h = ground arith
  model_target_total config current ModelTask.classification e (p ∷ ps) prediction h = ground arith

  -- The policy decides every prediction that the constructor of `Prediction` accepts: neither the
  -- `assert` nor `max` of an empty dict can raise, at any position and any time of the session.
  pub decide_total :
      ⦃fmt : Format F⦄ (config : DecisionPolicyConfig F) (task : ModelTask) (expected : Option F)
      (probabilities : Dict TargetExposure F) (prediction : Prediction F)
      (position : Option (Position F)) (since_open to_close : F)
      → make_prediction task expected probabilities ≡ ok prediction
      → is_ok (decide config prediction position since_open to_close) ≡ true
  unfolding decide
  decide_total config task expected probabilities prediction position since_open to_close made =
      ground (
        arith,
        model_target_total config (current_exposure position) task expected probabilities prediction
            made,
      )
