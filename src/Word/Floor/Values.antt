-- ===== src/Word/Floor/Values.antt =====
-- What floor_divide_word and floor_modulo_word (src/ir/function.cpp) compute, by the signs of the
-- operands, in terms of the magnitudes.
use mathlib.Core.Path.{ap₂}
use native.Mathlib.Nat.{div-add-mod', div-le_self, mod-lt}
use uni_jit.Common.{
  ℕ, zero, suc, ◌+◌, ◌-◌, ◌/◌, ◌%◌, ◌^◌, ◌≤◌, ◌<◌, ap, ◌≡◌, bit_xor, Bool, true, false, not,
  if◌then◌else◌, ◌==◌, arith,
}
use uni_jit.Common.Bits.{xor-shift, xor-lt}
use uni_jit.Word.{IsWord, is_negative, floor_divide_word, floor_modulo_word}

abbrev pub differs : Bool → Bool → Bool
differs true b = not b
differs false b = b

top_xor :
    (a b : ℕ)
    → a < 2
    → b < 2
    → (bit_xor a b < 2) × ((bit_xor a b ≡ 0 → a ≡ b) × (a ≡ b → bit_xor a b ≡ 0))
top_xor zero zero h k = omega arith
top_xor zero (suc zero) h k = ground arith
top_xor (suc zero) zero h k = ground arith
top_xor (suc zero) (suc zero) h k = ground arith
top_xor (suc (suc a)) b h k = absurd (omega arith)
top_xor a (suc (suc b)) h k = absurd (omega arith)

-- The exclusive or of two words is negative exactly when their signs differ.
pub is_negative-xor :
    (a b : ℕ)
    → IsWord a
    → IsWord b
    → is_negative (bit_xor a b) ≡ differs (is_negative a) (is_negative b)
is_negative-xor a b h k = ground (
  arith,
  xor-shift 63 a b,
  xor-lt 64 a b h k,
  top_xor (a / 2 ^ 63) (b / 2 ^ 63) (omega arith) (omega arith),
)

-- What the two operations compute, by the signs of the operands. `a` and `b` are magnitudes.
module _ (a b : ℕ) (below : a ≤ 2 ^ 63) (divisor : b ≤ 2 ^ 63) where
  pub positive_positive :
      a < 2 ^ 63
      → b < 2 ^ 63
      → 0 < b
      → (floor_divide_word a b ≡ a / b) × (floor_modulo_word a b ≡ a % b)
  unfolding floor_divide_word floor_modulo_word
  positive_positive h k p = ground (
    arith,
    is_negative-xor a b (omega arith) (omega arith),
    is_negative-xor (a % b) b (omega (arith, mod-lt a p)) (omega arith),
    mod-lt a p,
  )

  pub positive_negative :
      a < 2 ^ 63
      → 1 < b
      → (floor_divide_word a (2 ^ 64 - b)
          ≡ (if a % b == 0 then (2 ^ 64 - a / b) % 2 ^ 64 else 2 ^ 64 - a / b - 1))
        × (floor_modulo_word a (2 ^ 64 - b) ≡ (if a % b == 0 then 0 else 2 ^ 64 - b + a % b))
  unfolding floor_divide_word floor_modulo_word
  positive_negative h p =
      let m : 2 ^ 64 - (2 ^ 64 - b) ≡ b = omega arith in
      ground (
        arith,
        m,
        mod-lt a {m = b} (omega arith),
        div-le_self a b,
        is_negative-xor a (2 ^ 64 - b) (omega arith) (omega arith),
        is_negative-xor (a % b) (2 ^ 64 - b) (omega (arith, mod-lt a {m = b} (omega arith)))
            (omega arith),
        ap (λ (t : ℕ). a / t) m,
        ap (λ (t : ℕ). a % t) m,
      )

  pub negative_positive :
      0 < a
      → 0 < b
      → b < 2 ^ 63
      → (floor_divide_word (2 ^ 64 - a) b
          ≡ (if a % b == 0 then 2 ^ 64 - a / b else 2 ^ 64 - a / b - 1))
        × (floor_modulo_word (2 ^ 64 - a) b ≡ (if a % b == 0 then 0 else b - a % b))
  unfolding floor_divide_word floor_modulo_word
  negative_positive h p k =
      let m : 2 ^ 64 - (2 ^ 64 - a) ≡ a = omega arith in
      ground (
        arith,
        m,
        mod-lt a p,
        div-le_self a b,
        div-add-mod' a b,
        is_negative-xor (2 ^ 64 - a) b (omega arith) (omega arith),
        is_negative-xor ((2 ^ 64 - a % b) % 2 ^ 64) b (omega (arith, mod-lt a p)) (omega arith),
        ap (λ (t : ℕ). t / b) m,
        ap (λ (t : ℕ). t % b) m,
      )

  pub negative_negative :
      0 < a
      → 1 < b
      → (floor_divide_word (2 ^ 64 - a) (2 ^ 64 - b) ≡ a / b)
        × (floor_modulo_word (2 ^ 64 - a) (2 ^ 64 - b) ≡ (2 ^ 64 - a % b) % 2 ^ 64)
  unfolding floor_divide_word floor_modulo_word
  negative_negative h p =
      let m : 2 ^ 64 - (2 ^ 64 - a) ≡ a = omega arith in
      let d : 2 ^ 64 - (2 ^ 64 - b) ≡ b = omega arith in
      ground (
        arith,
        m,
        d,
        mod-lt a {m = b} (omega arith),
        is_negative-xor (2 ^ 64 - a) (2 ^ 64 - b) (omega arith) (omega arith),
        is_negative-xor ((2 ^ 64 - a % b) % 2 ^ 64) (2 ^ 64 - b) (omega arith) (omega arith),
        ap₂ (λ (t u : ℕ). t / u) m d,
        ap₂ (λ (t u : ℕ). t % u) m d,
      )
