-- ===== src/Engine/Reconcile.antt =====
-- engine/engine.py: `_reconcile_fills` and the orders submitted.
use carcharoth.Base.{String, List, [], ◌∷◌, Bool, Option, none, some, refl}
use carcharoth.Domain.{OrderResult, is_filled}
use carcharoth.Engine.Effects.{Call, call, pure, ◌>>=◌, ◌>>◌}
use carcharoth.Engine.Services.{Services}
use carcharoth.Engine.Tick.{
  any_error, save_unless_known, save_fill_once, record_result, fetch_or_skip, record_or_skip,
  reconcile_all, reconcile_fills,
}
use carcharoth.Engine.Quiet.{Quiet, Quiet-call, Quiet-bind, Quiet-try, Quiet-if}

module _ {F W : Type 0} (s : Services F W) where
  Quiet-save_unless_known : (o : OrderResult F) (known : Bool) → Quiet (save_unless_known s o known)
  unfolding save_unless_known
  Quiet-save_unless_known o known =
      Quiet-if known (pure tt) (call (Call.saved_fill o) (s.save_fill o)) (λ w. refl)
        (Quiet-call _ _ refl)

  Quiet-save_fill_once : (id : String) (o : OrderResult F) → Quiet (save_fill_once s id o)
  unfolding save_fill_once
  Quiet-save_fill_once id o =
      Quiet-if (is_filled o.status)
        (call (Call.looked_up_trade id) (s.exists_for_order id) >>= save_unless_known s o) (pure tt)
        (Quiet-bind (call (Call.looked_up_trade id) (s.exists_for_order id)) (save_unless_known s o)
          (Quiet-call _ _ refl) (Quiet-save_unless_known o))
        (λ w. refl)

  Quiet-record_or_skip : (id : String) (o : Option (OrderResult F)) → Quiet (record_or_skip s id o)
  unfolding record_or_skip record_result
  Quiet-record_or_skip id none = λ w. refl
  Quiet-record_or_skip id (some o) =
      Quiet-bind (call (Call.updated_order o) (s.update_from_broker o)) (λ _. save_fill_once s id o)
        (Quiet-call _ _ refl) (λ _. Quiet-save_fill_once id o)

  Quiet-fetch_or_skip : (id : String) → Quiet (fetch_or_skip s id)
  unfolding fetch_or_skip
  Quiet-fetch_or_skip id =
      Quiet-try (call (Call.fetched_order id) (s.get_order id) >>= λ o. pure (some o)) any_error
        none
        (Quiet-bind (call (Call.fetched_order id) (s.get_order id)) (λ o. pure (some o))
          (Quiet-call _ _ refl) (λ o w. refl))

  Quiet-reconcile_all : (ids : List String) → Quiet (reconcile_all s ids)
  unfolding reconcile_all
  Quiet-reconcile_all [] = λ w. refl
  Quiet-reconcile_all (id ∷ ids) =
      Quiet-bind (fetch_or_skip s id) (λ o. record_or_skip s id o >> reconcile_all s ids)
        (Quiet-fetch_or_skip id)
        (λ o.
          Quiet-bind (record_or_skip s id o) (λ _. reconcile_all s ids) (Quiet-record_or_skip id o)
            (λ _. Quiet-reconcile_all ids))

  pub Quiet-reconcile_fills : Quiet (reconcile_fills s)
  unfolding reconcile_fills
  Quiet-reconcile_fills =
      Quiet-bind (call Call.listed_open_ids s.find_open_broker_order_ids) (reconcile_all s)
        (Quiet-call _ _ refl) Quiet-reconcile_all
