-- ===== src/Base/Float.antt =====
-- Python's `float`, as an interface. The code uses doubles; what it does with them is what
-- `Float` lists, and its operations stay parameters of every definition that computes with them.
pub mod Whole
use mathlib.Core.Path.{◌≡◌}
use mathlib.Core.Logic.{◌⊎◌}
use mathlib.Core.Bool.{Bool, true, false}
use mathlib.Core.Option.{Option, none, some}
use mathlib.Core.List.{List}
use carcharoth.Base.Int.{ℤ, pos}
use carcharoth.Base.Tests.{if◌then◌else◌}
use carcharoth.Base.Result.{Error, Result, ok, err}

pub record Float (F : Type 0) : Type 0 where
  -- the conversion of an `int`
  pub of_int : ℤ → F
  pub add : F → F → F
  pub sub : F → F → F
  pub mul : F → F → F
  -- the quotient where the divisor is not zero
  pub div : F → F → F
  pub neg : F → F
  pub abs : F → F
  pub lt : F → F → Bool
  pub le : F → F → Bool
  pub eq : F → F → Bool
  -- `math.floor`; `none` where it raises, at an infinity or a NaN
  pub floor : F → Option ℤ
  -- the built-in `sum`, whose rounding is not that of repeated `+`
  pub total : List F → F

module _ {F : Type 0} ⦃num : Float F⦄ where
  infixl 65 ◌⊕◌ ◌⊖◌
  infixl 70 ◌⊗◌ ◌⊘◌
  infix 50 ◌≺◌ ◌≼◌
  abbrev pub ◌⊕◌ : F → F → F
  ◌⊕◌ = num.add

  abbrev pub ◌⊖◌ : F → F → F
  ◌⊖◌ = num.sub

  abbrev pub ◌⊗◌ : F → F → F
  ◌⊗◌ = num.mul

  -- for a divisor that is a constant of the source and not zero
  abbrev pub ◌⊘◌ : F → F → F
  ◌⊘◌ = num.div

  abbrev pub ◌≺◌ : F → F → Bool
  ◌≺◌ = num.lt

  abbrev pub ◌≼◌ : F → F → Bool
  ◌≼◌ = num.le

  abbrev pub nought : F
  nought = num.of_int (pos 0)

  abbrev pub one : F
  one = num.of_int (pos 1)

  -- `a / b`, which raises at a zero divisor
  abbrev pub divide : F → F → Result F
  divide a b = if num.eq b nought then err Error.zero_division else ok (num.div a b)

  -- `math.floor(x)`
  abbrev pub floor_or_raise : F → Result ℤ
  floor_or_raise x = elim (num.floor x) [ none ↦ err Error.overflow | some n ↦ ok n ]

  -- `min(a, b)` and `max(a, b)`: the first argument, unless the second is strictly better
  abbrev pub fmin : F → F → F
  fmin a b = if b ≺ a then b else a

  abbrev pub fmax : F → F → F
  fmax a b = if a ≺ b then b else a

-- Facts of IEEE 754 comparison and sign, which hold of every double, the NaNs included.
pub record IsFloat (F : Type 0) ⦃num : Float F⦄ : Type 0 where
  pub lt_irrefl : (x : F) → x ≺ x ≡ false
  pub lt_trans : (x y z : F) → x ≺ y ≡ true → y ≺ z ≡ true → x ≺ z ≡ true
  pub le_trans : (x y z : F) → x ≼ y ≡ true → y ≼ z ≡ true → x ≼ z ≡ true
  pub le-of-lt : (x y : F) → x ≺ y ≡ true → x ≼ y ≡ true
  pub not-le-of-lt : (x y : F) → x ≺ y ≡ true → y ≼ x ≡ false
  -- `y` below `x` or beside it: what a failed `<` leaves, away from NaN
  pub le-of-not-lt : (x y : F) → x ≼ x ≡ true → y ≼ y ≡ true → x ≺ y ≡ false → y ≼ x ≡ true
  pub neg_pos : (x : F) → nought ≺ x ≡ true → num.neg x ≺ nought ≡ true
  pub not-zero_of_not-le : (x : F) → x ≼ nought ≡ false → num.eq x nought ≡ false
  pub neg-zero : (x : F) → num.eq (num.neg x) nought ≡ num.eq x nought
  pub abs-zero : (x : F) → num.eq (num.abs x) nought ≡ num.eq x nought
