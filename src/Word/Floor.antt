-- ===== src/Word/Floor.antt =====
-- floor_divide_word and floor_modulo_word (src/ir/function.cpp) against division on the integers.
pub mod Values
pub mod Exact
use mathlib.Core.Path.{ap₂, subst}
use native.Mathlib.Nat.{div-add-mod', div-le_self, mod-lt}
use uni_jit.Common.{
  ℕ, zero, suc, ◌+◌, ◌-◌, ◌*◌, ◌/◌, ◌%◌, ◌^◌, ◌≤◌, ◌<◌, ap, ◌≡◌, refl, ◌≢◌, bit_xor, Bool, true,
  false, not, if◌then◌else◌, ◌==◌, arith, Bool-cases, inl, inr, ◌⊎◌,
}
use uni_jit.Common.Bits.{xor-shift, xor-lt}
use uni_jit.Common.Int.{ℤ, pos, negsuc, ◌+ℤ◌, ◌*ℤ◌, int_laws, eq_of_parts, ◌≤ℤ◌, ◌<ℤ◌}
use uni_jit.Word.{
  negate, IsWord, is_negative, signed, magnitude, truncated_quotient, truncated_remainder,
  floor_divide_word, floor_modulo_word,
}
use Values.{positive_negative, negative_positive}
use Exact.{
  FloorDivides, FloorDivides-positive_positive, FloorDivides-negative_negative, signed_nonneg,
  signed_neg, exact_positive, inexact_positive, exact_negative, inexact_negative,
}

le-mul_suc : (q b : ℕ) → q ≤ q * suc b
le-mul_suc q b = grind arith

-- The two mixed cases, by the quotient `q` and the remainder `r` of the magnitudes.
module _ (a b : ℕ) (divisor : suc b ≤ 2 ^ 63) where
  mixed_positive :
      (q r : ℕ)
      → a / suc b ≡ q
      → a % suc b ≡ r
      → a ≡ q * suc b + r
      → r ≤ b
      → a < 2 ^ 63
      → 0 < b
      → FloorDivides a (2 ^ 64 - suc b)
  mixed_positive zero zero eq er total le h p =
      let v = positive_negative a (suc b) (omega arith) divisor h (omega arith) in
      let fd : floor_divide_word a (2 ^ 64 - suc b) ≡ 0 = ground arith in
      let fm : floor_modulo_word a (2 ^ 64 - suc b) ≡ 0 = ground arith in
      let z : a ≡ 0 = omega arith in
      rw (fd, fm, signed_neg b divisor, signed_nonneg a h, z)
        (eq_of_parts _ _ (omega int_laws), inr (omega arith, omega arith))
  mixed_positive (suc q) zero eq er total le h p =
      let v = positive_negative a (suc b) (omega arith) divisor h (omega arith) in
      let low : suc q ≤ a = omega (arith, le-mul_suc (suc q) b) in
      let fd : floor_divide_word a (2 ^ 64 - suc b) ≡ 2 ^ 64 - suc q = ground arith in
      let fm : floor_modulo_word a (2 ^ 64 - suc b) ≡ 0 = ground arith in
      rw (fd, fm) (exact_positive a b q divisor (omega arith) h low)
  mixed_positive q (suc r) eq er total le h p =
      let v = positive_negative a (suc b) (omega arith) divisor h (omega arith) in
      let low : q < a = omega (arith, le-mul_suc q b) in
      let fd : floor_divide_word a (2 ^ 64 - suc b) ≡ 2 ^ 64 - suc q = ground arith in
      let fm : floor_modulo_word a (2 ^ 64 - suc b) ≡ 2 ^ 64 - suc (b - r - 1) = ground arith in
      rw (fd, fm) (inexact_positive a b q divisor r total (omega arith) low h)

  mixed_negative :
      (q r : ℕ)
      → suc a / suc b ≡ q
      → suc a % suc b ≡ r
      → suc a ≡ q * suc b + r
      → r ≤ b
      → suc a ≤ 2 ^ 63
      → suc b < 2 ^ 63
      → FloorDivides (2 ^ 64 - suc a) (suc b)
  mixed_negative zero zero eq er total le h p = absurd (omega arith)
  mixed_negative (suc q) zero eq er total le h p =
      let v = negative_positive (suc a) (suc b) h divisor (omega arith) (omega arith) p in
      let low : q ≤ a = omega (arith, le-mul_suc (suc q) b) in
      let fd : floor_divide_word (2 ^ 64 - suc a) (suc b) ≡ 2 ^ 64 - suc q = ground arith in
      let fm : floor_modulo_word (2 ^ 64 - suc a) (suc b) ≡ 0 = ground arith in
      rw (fd, fm) (exact_negative a b q divisor (omega arith) h low p)
  mixed_negative q (suc r) eq er total le h p =
      let v = negative_positive (suc a) (suc b) h divisor (omega arith) (omega arith) p in
      let low : q ≤ a = omega (arith, le-mul_suc q b) in
      let fd : floor_divide_word (2 ^ 64 - suc a) (suc b) ≡ 2 ^ 64 - suc q = ground arith in
      let fm : floor_modulo_word (2 ^ 64 - suc a) (suc b) ≡ b - r = ground arith in
      rw (fd, fm) (inexact_negative a b q divisor r total (omega arith) low h p)

-- A divisor of -1 negates, which is exact but for the least word.
positive_by_minus_one : (n : ℕ) → n < 2 ^ 63 → FloorDivides n (2 ^ 64 - 1)
unfolding floor_divide_word floor_modulo_word
positive_by_minus_one zero h = (eq_of_parts _ _ (omega int_laws), inr (omega arith, omega arith))
positive_by_minus_one (suc n) h =
    let fd : floor_divide_word (suc n) (2 ^ 64 - 1) ≡ 2 ^ 64 - suc n = ground arith in
    let fm : floor_modulo_word (suc n) (2 ^ 64 - 1) ≡ 0 = ground arith in
    rw (fd, fm, signed_nonneg (suc n) h, signed_neg n (omega arith))
      (eq_of_parts _ _ (omega int_laws), inr (omega arith, omega arith))

negative_by_minus_one : (a : ℕ) → suc a < 2 ^ 63 → FloorDivides (2 ^ 64 - suc a) (2 ^ 64 - 1)
unfolding floor_divide_word floor_modulo_word
negative_by_minus_one a h =
    let fd : floor_divide_word (2 ^ 64 - suc a) (2 ^ 64 - 1) ≡ suc a = ground arith in
    let fm : floor_modulo_word (2 ^ 64 - suc a) (2 ^ 64 - 1) ≡ 0 = ground arith in
    rw (fd, fm, signed_nonneg (suc a) h, signed_neg a (omega arith))
      (eq_of_parts _ _ (omega int_laws), inr (omega arith, omega arith))

sign_cases : (w : ℕ) → (w < 2 ^ 63) ⊎ (2 ^ 63 ≤ w)
sign_cases w = omega arith

-- The magnitude of a negative word determines it.
from_magnitude :
    (P : ℕ → Type 0) (w : ℕ)
    → IsWord w
    → 2 ^ 63 ≤ w
    → ((m : ℕ) → suc m ≤ 2 ^ 63 → 2 ^ 64 - suc m ≡ w → P (2 ^ 64 - suc m))
    → P w
from_magnitude P w h neg k =
    let e : 2 ^ 64 - suc (2 ^ 64 - w - 1) ≡ w = omega arith in
    subst P e (k (2 ^ 64 - w - 1) (omega arith) e)

by_negative : (a b : ℕ) → suc b ≤ 2 ^ 63 → a < 2 ^ 63 → FloorDivides a (2 ^ 64 - suc b)
by_negative a zero small p = positive_by_minus_one a p
by_negative a (suc b) small p =
    mixed_positive a (suc b) small (a / suc (suc b)) (a % suc (suc b)) refl refl
      (omega (arith, div-add-mod' a (suc (suc b))))
      (omega (arith, mod-lt a {m = suc (suc b)} (omega arith))) p (omega arith)

negative_by : (a b : ℕ) → suc a ≤ 2 ^ 63 → 0 < b → b < 2 ^ 63 → FloorDivides (2 ^ 64 - suc a) b
negative_by a zero small p q = absurd (omega arith)
negative_by a (suc b) small p q =
    mixed_negative a b (omega arith) (suc a / suc b) (suc a % suc b) refl refl
      (omega (arith, div-add-mod' (suc a) (suc b)))
      (omega (arith, mod-lt (suc a) {m = suc b} (omega arith))) small q

both_negative :
    (a b : ℕ)
    → suc a ≤ 2 ^ 63
    → suc b ≤ 2 ^ 63
    → ¬ ((suc a ≡ 2 ^ 63) × (b ≡ 0))
    → FloorDivides (2 ^ 64 - suc a) (2 ^ 64 - suc b)
both_negative a zero small tiny fits =
    let inside : suc a ≢ 2 ^ 63 = λ e. fits (e, refl) in negative_by_minus_one a (omega arith)
both_negative a (suc b) small tiny fits =
    FloorDivides-negative_negative (suc a) (suc (suc b)) small tiny (omega arith) (omega arith)

-- The quotient and remainder of two words satisfy the division equation on the integers that the
-- words stand for, and the remainder lies between zero and the divisor. The divisor is not zero,
-- and the operands are not the least word and -1, whose quotient is no word.
pub floor_divide_word_floors :
    (lhs rhs : ℕ)
    → IsWord lhs
    → IsWord rhs
    → rhs ≢ 0
    → ¬ ((lhs ≡ 2 ^ 63) × (rhs ≡ 2 ^ 64 - 1))
    → FloorDivides lhs rhs
floor_divide_word_floors lhs rhs h k nonzero fits = elim (sign_cases lhs) [
  | inl p ↦ elim (sign_cases rhs) [
    | inl q ↦ FloorDivides-positive_positive lhs rhs (omega arith) (omega arith) p q (omega arith)
    | inr q ↦ from_magnitude (FloorDivides lhs) rhs k q λ b small e. by_negative lhs b small p
  ]
  | inr p ↦
      from_magnitude (λ w. FloorDivides w rhs) lhs h p
        λ a small e. elim (sign_cases rhs) [
          | inl q ↦ negative_by a rhs small (omega arith) q
          | inr q ↦
              from_magnitude (FloorDivides (2 ^ 64 - suc a)) rhs k q
                λ b tiny d. both_negative a b small tiny (λ z. fits (omega arith, omega arith))
        ]
]
