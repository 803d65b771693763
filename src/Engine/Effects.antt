-- ===== src/Engine/Effects.antt =====
-- The effects of the engine: the world behind its services, the calls made so far (newest first),
-- and exceptions. What was done before an exception stays done.
use carcharoth.Base.{String, Bool, List, ◌∷◌, Option, if◌then◌else◌}
use carcharoth.Base.Result.{Error, Result, ok, err}
use carcharoth.Domain.{ExposureIntent, RiskDecision, OrderRequest, OrderResult, AccountState, Time}

-- A call of a service or a repository, with the arguments that matter to the orders.
pub data Call (F : Type 0) : Type 0 where
  asked_requirements asked_snapshot asked_account : Call F
  saved_snapshot : Time → AccountState F → Call F
  generated : String → Call F
  assessed : String → Call F
  saved_decision : ExposureIntent F → Option (RiskDecision F) → Call F
  listed_open_orders : String → Call F
  cancelled : String → Call F
  submitted : OrderRequest F → Call F
  saved_submitted : OrderRequest F → OrderResult F → Call F
  listed_open_ids : Call F
  fetched_order : String → Call F
  updated_order : OrderResult F → Call F
  looked_up_trade : String → Call F
  saved_fill : OrderResult F → Call F

pub record World (F W : Type 0) : Type 0 where
  pub outside : W
  pub calls : List (Call F)

abbrev pub Exec : Type 0 → Type 0 → Type 0 → Type 0
Exec F W A = World F W → Result A × World F W

-- what one service does to the world behind it
abbrev pub Service : Type 0 → Type 0 → Type 0
Service W A = W → Result A × W

module _ {F W : Type 0} where
  unfoldable pub call : {A : Type 0} → Call F → Service W A → Exec F W A
  call c service w =
      let (r, outside) = service w.outside in
      (r, record w { outside = outside; calls = c ∷ w.calls })

  abbrev pub pure : {A : Type 0} → A → Exec F W A
  pure a w = (ok a, w)

  abbrev pub continue : {A B : Type 0} → Result A → (A → Exec F W B) → Exec F W B
  continue (ok a) f w = f a w
  continue (err e) f w = (err e, w)

  infixl 10 ◌>>=◌ ◌>>◌
  abbrev pub ◌>>=◌ : {A B : Type 0} → Exec F W A → (A → Exec F W B) → Exec F W B
  ◌>>=◌ m f w = let (r, w') = m w in continue r f w'

  abbrev pub ◌>>◌ : {B : Type 0} → Exec F W (Unit {0}) → Exec F W B → Exec F W B
  m >> k = m >>= λ _. k

  -- `except` over the errors that `caught` accepts, with the handler's value
  abbrev pub handle :
      {A : Type 0} → (Error → Bool) → A → Result A → World F W → Result A × World F W
  handle caught a (ok v) w = (ok v, w)
  handle caught a (err e) w = if caught e then (ok a, w) else (err e, w)

  unfoldable pub try : {A : Type 0} → Exec F W A → (Error → Bool) → A → Exec F W A
  try m caught a w = let (r, w') = m w in handle caught a r w'
