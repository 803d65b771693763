-- ===== src/Base/Float/Whole.antt =====
-- An instance of `Float` in which every law of `IsFloat` holds: the integers, with the quotient
-- rounded towards zero. Tests and witnesses run on it.
use mathlib.Core.Bool.{Bool, ◌&&◌}
use mathlib.Core.List.{foldr}
use mathlib.Core.Option.{some}
use native.Mathlib.Omega.{arith}
use carcharoth.Base.Int.{ℤ, pos, ◌+ℤ◌, ◌-ℤ◌, ◌*ℤ◌, negate, magnitude, ltb_ℤ, leb_ℤ, quotient}
use carcharoth.Base.Float.{Float, IsFloat}

abbrev eqb_ℤ : ℤ → ℤ → Bool
eqb_ℤ a b = leb_ℤ a b && leb_ℤ b a

instance abbrev pub whole : Float ℤ
whole = record {
  of_int = λ a. a;
  add = ◌+ℤ◌;
  sub = ◌-ℤ◌;
  mul = ◌*ℤ◌;
  div = quotient;
  neg = negate;
  abs = magnitude;
  lt = ltb_ℤ;
  le = leb_ℤ;
  eq = eqb_ℤ;
  floor = some;
  total = foldr ◌+ℤ◌ (pos 0);
}

pub whole-IsFloat : IsFloat ℤ
whole-IsFloat = record {
  lt_irrefl = λ x. ground arith;
  lt_trans = λ x y z h k. ground arith;
  le_trans = λ x y z h k. ground arith;
  le-of-lt = λ x y h. ground arith;
  not-le-of-lt = λ x y h. ground arith;
  le-of-not-lt = λ x y p q h. ground arith;
  neg_pos = λ x h. ground arith;
  not-zero_of_not-le = λ x h. ground arith;
  neg-zero = λ x. ground arith;
  abs-zero = λ x. ground arith;
}
