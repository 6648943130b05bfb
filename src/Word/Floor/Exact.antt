-- ===== src/Word/Floor/Exact.antt =====
-- The division equation on the integers, which floor_divide_word and floor_modulo_word
-- (src/ir/function.cpp) are held to, and the identities that it comes to by sign.
use native.Mathlib.Nat.{div-add-mod', div-le_self, mod-lt}
use uni_jit.Common.{ℕ, suc, ◌+◌, ◌-◌, ◌*◌, ◌^◌, ◌≤◌, ◌<◌, ◌≡◌, arith, inl, inr, ◌⊎◌}
use uni_jit.Common.Int.{pos, negsuc, ◌+ℤ◌, ◌*ℤ◌, int_laws, eq_of_parts, ◌≤ℤ◌, ◌<ℤ◌}
use uni_jit.Word.{signed, floor_divide_word, floor_modulo_word}
use uni_jit.Word.Floor.Values.{positive_positive, negative_negative}

-- q * rhs + r = lhs on the integers that the words stand for.
abbrev pub Divides : ℕ → ℕ → ℕ → ℕ → Type 0
Divides lhs rhs q r = signed lhs ≡ signed q *ℤ signed rhs +ℤ signed r

-- The remainder lies between zero and the divisor, and is not the divisor.
abbrev pub Remains : ℕ → ℕ → Type 0
Remains rhs r =
    ((pos 0 ≤ℤ signed r) × (signed r <ℤ signed rhs))
    ⊎ ((signed rhs <ℤ signed r) × (signed r ≤ℤ pos 0))

-- Floor division of lhs by rhs, both as words.
abbrev pub FloorDivides : ℕ → ℕ → Type 0
FloorDivides lhs rhs =
    Divides lhs rhs (floor_divide_word lhs rhs) (floor_modulo_word lhs rhs)
    × Remains rhs (floor_modulo_word lhs rhs)

module _ (a b : ℕ) (below : a ≤ 2 ^ 63) (divisor : b ≤ 2 ^ 63) where
  pub FloorDivides-positive_positive : a < 2 ^ 63 → b < 2 ^ 63 → 0 < b → FloorDivides a b
  unfolding ◌+ℤ◌ ◌*ℤ◌
  FloorDivides-positive_positive h k p = ground (
    arith,
    positive_positive a b below divisor h k p,
    div-add-mod' a b,
    mod-lt a p,
    div-le_self a b,
  )

  pub FloorDivides-negative_negative : 0 < a → 1 < b → FloorDivides (2 ^ 64 - a) (2 ^ 64 - b)
  unfolding ◌+ℤ◌ ◌*ℤ◌
  FloorDivides-negative_negative h p = ground (
    arith,
    negative_negative a b below divisor h p,
    div-add-mod' a b,
    mod-lt a {m = b} (omega arith),
    div-le_self a b,
  )

pub signed_nonneg : (n : ℕ) → n < 2 ^ 63 → signed n ≡ pos n
signed_nonneg n h = ground arith

pub signed_neg : (n : ℕ) → n < 2 ^ 63 → signed (2 ^ 64 - suc n) ≡ negsuc n
signed_neg n h = ground arith

-- An exact quotient is negated, an inexact one is one further from zero.
module _ (a b q : ℕ) (divisor : suc b ≤ 2 ^ 63) where
  pub exact_positive :
      a ≡ suc q * suc b
      → a < 2 ^ 63
      → suc q ≤ a
      → Divides a (2 ^ 64 - suc b) (2 ^ 64 - suc q) 0 × Remains (2 ^ 64 - suc b) 0
  exact_positive e h le =
      rw (signed_nonneg a h, signed_neg b divisor, signed_neg q (omega arith))
        (eq_of_parts _ _ (omega int_laws), inr (omega arith, omega arith))

  pub inexact_positive :
      (r : ℕ)
      → a ≡ q * suc b + suc r
      → r < b
      → q < a
      → a < 2 ^ 63
      → Divides a (2 ^ 64 - suc b) (2 ^ 64 - suc q) (2 ^ 64 - suc (b - r - 1))
        × Remains (2 ^ 64 - suc b) (2 ^ 64 - suc (b - r - 1))
  inexact_positive r e lt le h =
      rw
        (
          signed_nonneg a h,
          signed_neg b divisor,
          signed_neg q (omega arith),
          signed_neg (b - r - 1) (omega arith),
        )
        (eq_of_parts _ _ (omega int_laws), inr (omega arith, omega arith))

  pub exact_negative :
      suc a ≡ suc q * suc b
      → suc a ≤ 2 ^ 63
      → q ≤ a
      → suc b < 2 ^ 63
      → Divides (2 ^ 64 - suc a) (suc b) (2 ^ 64 - suc q) 0 × Remains (suc b) 0
  exact_negative e h le k =
      rw (signed_nonneg (suc b) k, signed_neg a h, signed_neg q (omega arith))
        (eq_of_parts _ _ (omega int_laws), inl (omega arith, omega arith))

  pub inexact_negative :
      (r : ℕ)
      → suc a ≡ q * suc b + suc r
      → r < b
      → q ≤ a
      → suc a ≤ 2 ^ 63
      → suc b < 2 ^ 63
      → Divides (2 ^ 64 - suc a) (suc b) (2 ^ 64 - suc q) (b - r) × Remains (suc b) (b - r)
  inexact_negative r e lt le h k =
      rw
        (
          signed_nonneg (suc b) k,
          signed_neg a h,
          signed_neg q (omega arith),
          signed_nonneg (b - r) (omega arith),
        )
        (eq_of_parts _ _ (omega int_laws), inl (omega arith, omega arith))
