-- ===== src/Prelude/Float.antt =====
-- Python's `float`, which has no model here: a type with the operations that the code uses, and the
-- one law that a proof needs. The comparisons are those of IEEE numbers that are no NaN.
use mathlib.Core.Path.{◌≡◌}
use mathlib.Core.Bool.{Bool, true, false}
use Prim.Native.Nat.{ℕ}
use Prim.Native.String.{String}

pub record FloatOps (F : Type 0) : Type 0 where
  pub fle : F → F → Bool
  pub flt : F → F → Bool
  pub feq : F → F → Bool
  pub fadd : F → F → F
  pub fmul : F → F → F
  -- `n / 1000` as a float
  pub thousandths : ℕ → F
  pub fzero : F
  pub fone : F
  -- the literal 0.95
  pub gate_threshold : F
  -- `str(x)`
  pub fshow : F → String
  pub not-flt_of_fle : (a b : F) → fle a b ≡ true → flt b a ≡ false
