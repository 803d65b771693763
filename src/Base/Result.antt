-- ===== src/Base/Result.antt =====
-- Python's exceptions as values: the classes that the modelled code raises or catches.
use mathlib.Core.Path.{◌≡◌, refl}
use mathlib.Core.Bool.{Bool, true, false}
use carcharoth.Base.Tests.{if◌then◌else◌}

-- domain/errors.py, and the built-in exceptions that the modelled code can meet. `broker_error`
-- is a `BrokerError` that is no `OrderConflictError`.
pub data Error : Type 0 where
  market_data_error account_error broker_error order_conflict : Error
  value_error key_error assertion_error zero_division overflow : Error
  -- an exception of a component that is not modelled
  other : Error

-- `except BrokerError`: it catches the subclass too
abbrev pub is_broker_error : Error → Bool
is_broker_error Error.broker_error = true
is_broker_error Error.order_conflict = true
is_broker_error _ = false

pub data Result {ℓ} (A : Type ℓ) : Type ℓ where
  err : Error → Result A
  ok : A → Result A

abbrev pub is_ok {ℓ} : {A : Type ℓ} → Result A → Bool
is_ok (err _) = false
is_ok (ok _) = true

unfoldable pub value_of {ℓ} : {A : Type ℓ} (r : Result A) → is_ok r ≡ true → (a : A) × (r ≡ ok a)
value_of (err e) h = cc
value_of (ok a) h = (a, refl)

pub ok-inj {ℓ} : {A : Type ℓ} {a b : A} → ok a ≡ ok b → a ≡ b
ok-inj same = cc same

-- `if test: raise error`
abbrev pub raise_if : Bool → Error → Result (Unit {0})
raise_if b e = if b then err e else ok tt

module _ {ℓ κ} {A : Type ℓ} {B : Type κ} where
  infixl 5 ◌>>=◌
  abbrev pub ◌>>=◌ : Result A → (A → Result B) → Result B
  err raised >>= next = err raised
  ok value >>= next = next value

  pub >>=-eq-ok :
      (first : Result A) (next : A → Result B) {last : B}
      → (first >>= next) ≡ ok last
      → (value : A) × (first ≡ ok value) × (next value ≡ ok last)
  >>=-eq-ok (err raised) next ends = cc
  >>=-eq-ok (ok value) next ends = (value, refl, ends)

module _ {ℓ} {B : Type ℓ} where
  infixl 5 ◌>>◌
  abbrev pub ◌>>◌ : Result (Unit {0}) → Result B → Result B
  first >> rest = first >>= λ _. rest
