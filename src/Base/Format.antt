-- ===== src/Base/Format.antt =====
-- Python's formatting of numbers in messages: the texts stay parameters.
use carcharoth.Base.Int.{ℤ}
use Prim.Native.Nat.{ℕ}
use Prim.Native.String.{String}

pub record Format (F : Type 0) : Type 0 where
  -- `f"{x:.nf}"`
  pub fixed : ℕ → F → String
  -- `f"{x:.n%}"`
  pub percent : ℕ → F → String
  -- `str(n)`
  pub whole_number : ℤ → String
