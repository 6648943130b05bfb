-- ===== src/Common/Sizes.antt =====
-- `+=` and `-=` on a 64-bit size.
use Prim.Native.Nat.{ℕ, ◌+◌, ◌-◌, ◌%◌, ◌^◌, ◌<◌}
use mathlib.Core.Path.{◌≡◌}
use native.Mathlib.Omega.{arith}

abbrev pub grow : ℕ → ℕ → ℕ
grow size bytes = (size + bytes) % 2 ^ 64

abbrev pub shrink : ℕ → ℕ → ℕ
shrink size bytes = (size + (2 ^ 64 - bytes)) % 2 ^ 64

pub shrink_lem :
    (size bytes left : ℕ) → bytes + left < 2 ^ 64 → size ≡ bytes + left → shrink size bytes ≡ left
shrink_lem size bytes left small same = omega (arith, small, same)
