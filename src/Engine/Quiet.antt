-- ===== src/Engine/Quiet.antt =====
-- The orders that the engine submits, read off its calls, and the actions that submit none.
use carcharoth.Base.{List, [], ◌∷◌, Bool, true, false, arith, ◌≡◌, ◌∙◌, refl, if◌then◌else◌}
use carcharoth.Base.Result.{Error, Result, ok, err, is_broker_error}
use carcharoth.Domain.{OrderRequest, OpenOrder, Side, same_side}
use carcharoth.Engine.Effects.{Call, World, Exec, Service, call, pure, continue, ◌>>=◌, handle, try}
use carcharoth.Engine.Services.{Services}
use carcharoth.Engine.Tick.{cancel_if_opposite, cancel_opposite}

-- the submitted requests, newest first
abbrev pub submits : {F : Type 0} → List (Call F) → List (OrderRequest F)
submits [] = []
submits (Call.submitted request ∷ calls) = request ∷ submits calls
submits (_ ∷ calls) = submits calls

abbrev pub orders_nothing : {F : Type 0} → Call F → Bool
orders_nothing (Call.submitted _) = false
orders_nothing _ = true

pub submits-cons :
    {F : Type 0} (c : Call F) (calls : List (Call F))
    → orders_nothing c ≡ true
    → submits (c ∷ calls) ≡ submits calls
submits-cons c calls h = ground arith

module _ {F W : Type 0} where
  -- whatever happens, no order is submitted
  abbrev pub Quiet : {A : Type 0} → Exec F W A → Type 0
  Quiet m = (w : World F W) → submits (m w).1.calls ≡ submits w.calls

  pub Quiet-call :
      {A : Type 0} (c : Call F) (service : Service W A)
      → orders_nothing c ≡ true
      → Quiet (call c service)
  unfolding call
  Quiet-call c service h w = submits-cons c w.calls h

  continue-Quiet :
      {A B : Type 0} (r : Result A) (f : A → Exec F W B) (w : World F W)
      → ((a : A) → Quiet (f a))
      → submits (continue r f w).1.calls ≡ submits w.calls
  continue-Quiet (ok a) f w h = h a w
  continue-Quiet (err e) f w h = refl

  pub Quiet-bind :
      {A B : Type 0} (m : Exec F W A) (f : A → Exec F W B)
      → Quiet m
      → ((a : A) → Quiet (f a))
      → Quiet (m >>= f)
  Quiet-bind m f hm hf w = continue-Quiet (m w).0 f (m w).1 hf ∙ hm w

  handle_quiet :
      {A : Type 0} (caught : Error → Bool) (a : A) (r : Result A) (w : World F W)
      → submits (handle caught a r w).1.calls ≡ submits w.calls
  handle_quiet caught a (ok v) w = refl
  handle_quiet caught a (err e) w = ground arith

  pub Quiet-try :
      {A : Type 0} (m : Exec F W A) (caught : Error → Bool) (a : A)
      → Quiet m
      → Quiet (try m caught a)
  unfolding try
  Quiet-try m caught a h w = handle_quiet caught a (m w).0 (m w).1 ∙ h w

  pub Quiet-if :
      {A : Type 0} (b : Bool) (m n : Exec F W A) → Quiet m → Quiet n → Quiet (if b then m else n)
  Quiet-if true m n hm hn = hm
  Quiet-if false m n hm hn = hn

  module _ (s : Services F W) (side : Side) where
    Quiet-cancel_if_opposite : (order : OpenOrder) → Quiet (cancel_if_opposite s side order)
    unfolding cancel_if_opposite
    Quiet-cancel_if_opposite order =
        Quiet-if (same_side order.side side) (pure tt) _ (λ w. refl)
          (Quiet-try
            (call (Call.cancelled order.broker_order_id) (s.cancel_order order.broker_order_id))
            is_broker_error tt (Quiet-call _ _ refl))

    -- Cancelling submits nothing.
    pub Quiet-cancel_opposite : (orders : List OpenOrder) → Quiet (cancel_opposite s side orders)
    unfolding cancel_opposite
    Quiet-cancel_opposite [] = λ w. refl
    Quiet-cancel_opposite (order ∷ rest) =
        Quiet-bind (cancel_if_opposite s side order) (λ _. cancel_opposite s side rest)
          (Quiet-cancel_if_opposite order) (λ _. Quiet-cancel_opposite rest)
