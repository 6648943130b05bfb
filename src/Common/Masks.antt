-- ===== src/Common/Masks.antt =====
-- Masks of ones, which the back of a word is cut off with.
use Prim.Native.Nat.{ℕ, zero, suc, ◌+◌, ◌-◌, ◌*◌, ◌/◌, ◌%◌, ◌^◌, ◌<◌, bit_and}
use mathlib.Core.Path.{◌≡◌, sym, ap, ◌∙◌}
use native.Mathlib.Nat.{
  two-pow-succ, one-le-pow, mod-lt, mod-one, mod-eq_of_lt, div-add-mod, mul-add-mod_self_left,
}
use native.Mathlib.Omega.{arith}
use package.uni_jit.Common.Bits.{and_step, and-zero, halve_ones}

below_power : (x : ℕ) → x < 2 ^ x
below_power zero = omega arith
below_power (suc x) = omega (arith, two-pow-succ x, below_power x)

halves_mod : (k a : ℕ) → a / 2 % 2 ^ k * 2 + a % 2 ≡ a % 2 ^ suc k
halves_mod k a =
    let r : ℕ = a / 2 % 2 ^ k in
    let q : ℕ = a / 2 / 2 ^ k in
    let small : r * 2 + a % 2 < 2 ^ suc k =
      omega (arith, two-pow-succ k, mod-lt (a / 2) (one-le-pow k 2 (omega arith))) in
    let whole : 2 ^ suc k * q + (r * 2 + a % 2) ≡ a =
      omega (arith, ap (λ (t : ℕ). t * q) (two-pow-succ k), div-add-mod (a / 2) (2 ^ k)) in
    sym (mod-eq_of_lt small)
    ∙ sym (mul-add-mod_self_left (2 ^ suc k) q (r * 2 + a % 2))
    ∙ ap (λ (t : ℕ). t % 2 ^ suc k) whole

-- A mask of k ones is a remainder.
pub and-mask : (k a : ℕ) → bit_and a (2 ^ k - 1) ≡ a % 2 ^ k
and-mask zero a = and-zero a a (below_power a) ∙ sym (mod-one a)
and-mask (suc k) a = omega (
  arith,
  two-pow-succ k,
  one-le-pow k 2,
  and_step a (2 ^ suc k - 1),
  ap (bit_and (a / 2)) (halve_ones k),
  and-mask k (a / 2),
  halves_mod k a,
)
