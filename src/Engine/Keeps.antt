-- ===== src/Engine/Keeps.antt =====
-- engine/engine.py: what the services keep over the processing of the symbols.
use carcharoth.Base.{
  Bool-cases, inl, inr, String, List, [], ◌∷◌, Bool, true, false, Option, none, some, ◌≡◌, refl,
  if◌then◌else◌,
}
use carcharoth.Base.Dict.{get}
use carcharoth.Base.Eq.{string_eq}
use carcharoth.Base.Result.{Error, Result, ok, err, is_broker_error}
use carcharoth.Domain.{
  ExposureIntent, RiskDecision, OrderRequest, OrderResult, OpenOrder, AccountState, Time,
  MarketSnapshot, Position, Quote, Side, TargetExposure, same_exposure, same_side,
}
use carcharoth.Engine.Effects.{Call, World, Exec, Service, call, pure, continue, ◌>>=◌, handle, try}
use carcharoth.Engine.Services.{Services}
use carcharoth.Engine.Tick.{
  any_error, is_conflict, cancel_if_opposite, cancel_opposite, after_listing,
  clear_conflicting_orders, submit_or_skip, save_outcome, send_order, place_order, execute_side,
  execute_approved, execute_decision, assess_and_execute, act_on_intent, process_symbol,
  process_symbols,
}

-- what holds of the world before a service holds after it, whether it succeeds or raises
abbrev pub KeptBy : {W A : Type 0} → (W → Type 0) → Service W A → Type 0
KeptBy {W} I service = (d : W) → I d → I (service d).1

-- What holds of the world stays, whether the action succeeds or raises.
module _ {F W : Type 0} (I : W → Type 0) where
  abbrev pub Keeps : {A : Type 0} → Exec F W A → Type 0
  Keeps m = (w : World F W) → I w.outside → I (m w).1.outside

  pub Keeps-call :
      {A : Type 0} (c : Call F) (service : Service W A) → KeptBy I service → Keeps (call c service)
  unfolding call
  Keeps-call c service h w = h w.outside

  continue-Keeps :
      {A B : Type 0} (r : Result A) (f : A → Exec F W B) (w : World F W)
      → ((a : A) → Keeps (f a))
      → I w.outside
      → I (continue r f w).1.outside
  continue-Keeps (ok a) f w h i = h a w i
  continue-Keeps (err e) f w h i = i

  pub Keeps-bind :
      {A B : Type 0} (m : Exec F W A) (f : A → Exec F W B)
      → Keeps m
      → ((a : A) → Keeps (f a))
      → Keeps (m >>= f)
  Keeps-bind m f hm hf w i = continue-Keeps (m w).0 f (m w).1 hf (hm w i)

  handle-Keeps :
      {A : Type 0} (caught : Error → Bool) (a : A) (r : Result A) (w : World F W)
      → I w.outside
      → I (handle caught a r w).1.outside
  handle-Keeps caught a (ok v) w i = i
  handle-Keeps caught a (err e) w i = elim (Bool-cases (caught e)) [
    | inl handled ↦ rw handled i
    | inr raised ↦ rw raised i
  ]

  pub Keeps-try :
      {A : Type 0} (m : Exec F W A) (caught : Error → Bool) (a : A)
      → Keeps m
      → Keeps (try m caught a)
  unfolding try
  Keeps-try m caught a h w i = handle-Keeps caught a (m w).0 (m w).1 (h w i)

  pub Keeps-if :
      {A : Type 0} (b : Bool) (m n : Exec F W A) → Keeps m → Keeps n → Keeps (if b then m else n)
  Keeps-if true m n hm hn = hm
  Keeps-if false m n hm hn = hn

-- What the services of the engine keep. An order is recorded in the world that its submission has
-- left.
pub record IsLawful {F W : Type 0} (s : Services F W) (I : W → Type 0) : Type 0 where
  pub generates :
      (symbol : String) (snapshot : MarketSnapshot F) (position : Option (Position F))
      → KeptBy I (s.generate symbol snapshot position)
  pub assesses :
      (intent : ExposureIntent F) (state : AccountState F) (quote : Quote F)
      → KeptBy I (s.assess intent state quote)
  pub decides :
      (intent : ExposureIntent F) (decision : Option (RiskDecision F)) (t : Time)
      → KeptBy I (s.save_decision intent decision t)
  pub lists : (symbol : String) → KeptBy I (s.find_open_orders symbol)
  pub cancels : (id : String) → KeptBy I (s.cancel_order id)
  pub names : KeptBy I s.fresh_id
  pub sends : (request : OrderRequest F) → KeptBy I (s.submit request)
  pub records :
      (request : OrderRequest F) (d : W) (result : OrderResult F)
      → I d
      → (s.submit request d).0 ≡ ok result
      → I (s.save_submitted request result (s.submit request d).1).1

module _ {F W : Type 0} (s : Services F W) (I : W → Type 0) (law : IsLawful s I) where
  Keeps-cancel_opposite :
      (side : Side) (orders : List OpenOrder) → Keeps I (cancel_opposite s side orders)
  unfolding cancel_opposite cancel_if_opposite
  Keeps-cancel_opposite side [] = λ w i. i
  Keeps-cancel_opposite side (order ∷ rest) =
      let id = order.broker_order_id in
      Keeps-bind I (cancel_if_opposite s side order) (λ _. cancel_opposite s side rest)
        (Keeps-if I (same_side order.side side) (pure tt) _ (λ w i. i)
          (Keeps-try I (call (Call.cancelled id) (s.cancel_order id)) is_broker_error tt
            (Keeps-call I (Call.cancelled id) (s.cancel_order id) (law.cancels id))))
        (λ _. Keeps-cancel_opposite side rest)

  Keeps-after_listing :
      (side : Side) (orders : List OpenOrder) → Keeps I (after_listing s side orders)
  unfolding after_listing
  Keeps-after_listing side [] = λ w i. i
  Keeps-after_listing side (order ∷ rest) =
      Keeps-bind I (cancel_opposite s side (order ∷ rest)) (λ _. pure false)
        (Keeps-cancel_opposite side (order ∷ rest)) (λ _ w i. i)

  -- what follows a submission, by its result
  after_submit-Keeps :
      (request : OrderRequest F) (r : Result (OrderResult F)) (w : World F W)
      → I w.outside
      → ((result : OrderResult F) → r ≡ ok result → I (s.save_submitted request result w.outside).1)
      → (let (tried, w1) = continue {W = W} r (λ result. pure (some result)) w in
          let (outcome, w2) = handle is_conflict none tried w1 in
          I (continue outcome (save_outcome s request) w2).1.outside)
  unfolding save_outcome call
  after_submit-Keeps request (ok result) w i saved = saved result refl
  after_submit-Keeps request (err e) w i saved = elim (Bool-cases (is_conflict e)) [
    | inl conflict ↦ rw conflict i
    | inr other ↦ rw other i
  ]

  Keeps-send_order :
      (symbol : String) (side : Side) (qty : F) (id : String)
      → Keeps I (send_order s symbol side qty id)
  unfolding send_order submit_or_skip try call
  Keeps-send_order symbol side qty id w i =
      let request : OrderRequest F = record {
        symbol = symbol;
        side = side;
        qty = qty;
        client_order_id = some id;
      } in
      let sent : World F W = record w {
        outside = (s.submit request w.outside).1;
        calls = Call.submitted request ∷ w.calls;
      } in
      after_submit-Keeps request (s.submit request w.outside).0 sent (law.sends request w.outside i)
        (λ result. law.records request w.outside result i)

  Keeps-place_order :
      (symbol : String) (side : Side) (qty : F) → Keeps I (place_order s symbol side qty)
  unfolding place_order
  Keeps-place_order symbol side qty w i =
      let (id, d) = s.fresh_id w.outside in
      continue-Keeps I id (send_order s symbol side qty) (record w { outside = d })
        (Keeps-send_order symbol side qty) (law.names w.outside i)

  Keeps-execute_side :
      (symbol : String) (side : Side) (qty : F) → Keeps I (execute_side s symbol side qty)
  unfolding execute_side clear_conflicting_orders
  Keeps-execute_side symbol side qty =
      Keeps-bind I
        (call (Call.listed_open_orders symbol) (s.find_open_orders symbol) >>= after_listing s side)
        (λ clear. if clear then place_order s symbol side qty else pure tt)
        (Keeps-bind I (call (Call.listed_open_orders symbol) (s.find_open_orders symbol))
          (after_listing s side) (Keeps-call I _ (s.find_open_orders symbol) (law.lists symbol))
          (Keeps-after_listing side))
        (λ clear.
          Keeps-if I clear (place_order s symbol side qty) (pure tt)
            (Keeps-place_order symbol side qty) (λ w i. i))

  Keeps-execute_approved :
      (symbol : String) (qty : F) (approved : Bool) (side : Option Side)
      → Keeps I (execute_approved s symbol qty approved side)
  unfolding execute_approved
  Keeps-execute_approved symbol qty approved none = λ w i. i
  Keeps-execute_approved symbol qty true (some side) = Keeps-execute_side symbol side qty
  Keeps-execute_approved symbol qty false (some side) = λ w i. i

  Keeps-assess_and_execute :
      (symbol : String) (intent : ExposureIntent F) (snapshot : MarketSnapshot F)
      (state : AccountState F) (quote : Quote F)
      → Keeps I (assess_and_execute s symbol intent snapshot state quote)
  unfolding assess_and_execute execute_decision
  Keeps-assess_and_execute symbol intent snapshot state quote =
      Keeps-bind I (call (Call.assessed symbol) (s.assess intent state quote)) _
        (Keeps-call I (Call.assessed symbol) _ (law.assesses intent state quote))
        (λ decision.
          Keeps-bind I
            (call (Call.saved_decision intent (some decision))
              (s.save_decision intent (some decision) snapshot.as_of))
            _ (Keeps-call I _ _ (law.decides intent (some decision) snapshot.as_of))
            (λ _. Keeps-execute_approved symbol decision.qty decision.approved decision.side))

  Keeps-act_on_intent :
      (symbol : String) (intent : ExposureIntent F) (snapshot : MarketSnapshot F)
      (state : AccountState F) (quote : Option (Quote F))
      → Keeps I (act_on_intent s symbol intent snapshot state quote)
  unfolding act_on_intent
  Keeps-act_on_intent symbol intent snapshot state none =
      Keeps-call I (Call.saved_decision intent none) _ (law.decides intent none snapshot.as_of)
  Keeps-act_on_intent symbol intent snapshot state (some quote) =
      Keeps-if I (same_exposure intent.target TargetExposure.unchanged)
        (call (Call.saved_decision intent none) (s.save_decision intent none snapshot.as_of))
        (assess_and_execute s symbol intent snapshot state quote)
        (Keeps-call I (Call.saved_decision intent none) _ (law.decides intent none snapshot.as_of))
        (Keeps-assess_and_execute symbol intent snapshot state quote)

  Keeps-process_symbol :
      (symbol : String) (snapshot : MarketSnapshot F) (state : AccountState F)
      → Keeps I (process_symbol s symbol snapshot state)
  unfolding process_symbol
  Keeps-process_symbol symbol snapshot state =
      let position = get state.positions symbol in
      Keeps-bind I (call (Call.generated symbol) (s.generate symbol snapshot position)) _
        (Keeps-call I (Call.generated symbol) _ (law.generates symbol snapshot position))
        (λ intent. Keeps-act_on_intent symbol intent snapshot state (get snapshot.quotes symbol))

  -- the loop over the symbols
  pub Keeps-process_symbols :
      (symbols : List String) (snapshot : MarketSnapshot F) (state : AccountState F)
      → Keeps I (process_symbols s symbols snapshot state)
  unfolding process_symbols
  Keeps-process_symbols [] snapshot state = λ w i. i
  Keeps-process_symbols (symbol ∷ symbols) snapshot state =
      Keeps-bind I (try (process_symbol s symbol snapshot state) any_error tt)
        (λ _. process_symbols s symbols snapshot state)
        (Keeps-try I (process_symbol s symbol snapshot state) any_error tt
          (Keeps-process_symbol symbol snapshot state))
        (λ _. Keeps-process_symbols symbols snapshot state)
