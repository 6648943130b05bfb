-- ===== src/Ir/Float.antt =====
-- The host's `double`: arithmetic and comparison on IEEE bit patterns, which the program uses
-- through pack_float64 and unpack_float64 (src/ir/function.cpp). It is not code of the program.
use uni_jit.Common.{ℕ, Bool}

pub record Float64 : Type 0 where
  pub plus : ℕ → ℕ → ℕ
  pub minus : ℕ → ℕ → ℕ
  pub times : ℕ → ℕ → ℕ
  pub over : ℕ → ℕ → ℕ
  pub less : ℕ → ℕ → Bool
  pub less_or_same : ℕ → ℕ → Bool
  pub same : ℕ → ℕ → Bool
