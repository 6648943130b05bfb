-- ===== src/Common/Bits.antt =====
-- Laws of `&`, `|` and `^` at variables, for the words of the intermediate representation and for
-- the bytes of bounded memory. Each follows from one equation for the lowest binary digit.
use Prim.Native.Nat.{
  ℕ, zero, suc, ◌+◌, ◌-◌, ◌*◌, ◌/◌, ◌%◌, ◌^◌, ◌≤◌, ◌<◌, min, max, differ, bit_and, bit_or, bit_xor,
  digits, bitwise, bit_and-bitwise, bit_or-bitwise, bit_xor-bitwise,
}
use mathlib.Core.Path.{◌≡◌, refl, sym, ap}
use native.Mathlib.Nat.{le_refl, two-pow-succ, pow-succ', one-le-pow, div-div-eq-div-mul}
use native.Mathlib.Omega.{arith}

module _ (z : ℕ → ℕ) (f : ℕ → ℕ → ℕ) where
  -- Digits left over in the count change nothing.
  digits-count : (n m a b : ℕ) → a ≤ n → a ≤ m → digits z f n a b ≡ digits z f m a b
  digits-count zero zero a b p q = refl
  digits-count zero (suc m) zero b p q = refl
  digits-count zero (suc m) (suc a) b p q = absurd (omega arith)
  digits-count (suc n) zero zero b p q = refl
  digits-count (suc n) zero (suc a) b p q = absurd (omega arith)
  digits-count (suc n) (suc m) zero b p q = refl
  digits-count (suc n) (suc m) (suc a) b p q =
      rw (digits-count n m (suc a / 2) (b / 2) (omega arith) (omega arith))

  bitwise_step :
      (a b : ℕ)
      → bitwise z f (suc a) b ≡ bitwise z f (suc a / 2) (b / 2) * 2 + f (suc a % 2) (b % 2)
  bitwise_step a b =
      omega (arith, digits-count a (suc a / 2) (suc a / 2) (b / 2) (omega arith) (le_refl _))

pub and_step : (a b : ℕ) → bit_and a b ≡ bit_and (a / 2) (b / 2) * 2 + min (a % 2) (b % 2)
and_step zero b = simp bit_and-bitwise (omega arith)
and_step (suc a) b = simp bit_and-bitwise (bitwise_step (λ y. 0) min a b)

pub or_step : (a b : ℕ) → bit_or a b ≡ bit_or (a / 2) (b / 2) * 2 + max (a % 2) (b % 2)
or_step zero b = simp bit_or-bitwise (omega arith)
or_step (suc a) b = simp bit_or-bitwise (bitwise_step (λ y. y) max a b)

-- The exclusive or of two digits is their sum without the carry.
differ_digits : (x y : ℕ) → x < 2 → y < 2 → differ x y ≡ (x + y) % 2
differ_digits zero y p q = omega arith
differ_digits (suc zero) zero p q = omega arith
differ_digits (suc zero) (suc zero) p q = omega arith
differ_digits (suc zero) (suc (suc y)) p q = absurd (omega arith)
differ_digits (suc (suc x)) y p q = absurd (omega arith)

pub xor_step : (a b : ℕ) → bit_xor a b ≡ bit_xor (a / 2) (b / 2) * 2 + (a + b) % 2
xor_step zero b = simp bit_xor-bitwise (omega arith)
xor_step (suc a) b = simp bit_xor-bitwise (
    omega (
      arith,
      bitwise_step (λ y. y) differ a b,
      differ_digits (suc a % 2) (b % 2) (omega arith) (omega arith),
    ))

pub halve_ones : (k : ℕ) → (2 ^ suc k - 1) / 2 ≡ 2 ^ k - 1
halve_ones k = omega (arith, two-pow-succ k, one-le-pow k 2)

pub double_multiple : (q k : ℕ) → q * 2 ^ suc k ≡ 2 * (q * 2 ^ k)
double_multiple q k = omega (arith, ap (λ (t : ℕ). q * t) (two-pow-succ k))

halve_multiple : (q k : ℕ) → q * 2 ^ suc k / 2 ≡ q * 2 ^ k
halve_multiple q k = omega (arith, double_multiple q k)

-- Induction is on the width `k` of the operands.
pub and_self : (k a : ℕ) → a < 2 ^ k → bit_and a a ≡ a
and_self zero a h = let e : a ≡ 0 = omega arith in rw e refl
and_self (suc k) a h =
    omega (arith, two-pow-succ k, and_step a a, and_self k (a / 2) (omega (arith, two-pow-succ k)))

pub and-zero : (k a : ℕ) → a < 2 ^ k → bit_and a 0 ≡ 0
and-zero zero a h = let e : a ≡ 0 = omega arith in rw e refl
and-zero (suc k) a h =
    omega (arith, two-pow-succ k, and_step a 0, and-zero k (a / 2) (omega (arith, two-pow-succ k)))

pub zero-and : (b : ℕ) → bit_and 0 b ≡ 0
zero-and b = bit_and-bitwise 0 b

pub zero-or : (b : ℕ) → bit_or 0 b ≡ b
zero-or b = bit_or-bitwise 0 b

pub zero-xor : (b : ℕ) → bit_xor 0 b ≡ b
zero-xor b = bit_xor-bitwise 0 b

pub and-ones : (k a : ℕ) → a < 2 ^ k → bit_and a (2 ^ k - 1) ≡ a
and-ones zero a h = let e : a ≡ 0 = omega arith in rw e refl
and-ones (suc k) a h = omega (
  arith,
  two-pow-succ k,
  one-le-pow k 2,
  and_step a (2 ^ suc k - 1),
  ap (bit_and (a / 2)) (halve_ones k),
  and-ones k (a / 2) (omega (arith, two-pow-succ k)),
)

pub or-zero : (k a : ℕ) → a < 2 ^ k → bit_or a 0 ≡ a
or-zero zero a h = let e : a ≡ 0 = omega arith in rw e refl
or-zero (suc k) a h =
    omega (arith, two-pow-succ k, or_step a 0, or-zero k (a / 2) (omega (arith, two-pow-succ k)))

pub or_self : (k a : ℕ) → a < 2 ^ k → bit_or a a ≡ a
or_self zero a h = let e : a ≡ 0 = omega arith in rw e refl
or_self (suc k) a h =
    omega (arith, two-pow-succ k, or_step a a, or_self k (a / 2) (omega (arith, two-pow-succ k)))

pub or-ones : (k a : ℕ) → a < 2 ^ k → bit_or a (2 ^ k - 1) ≡ 2 ^ k - 1
or-ones zero a h = let e : a ≡ 0 = omega arith in rw e refl
or-ones (suc k) a h = omega (
  arith,
  two-pow-succ k,
  one-le-pow k 2,
  or_step a (2 ^ suc k - 1),
  ap (bit_or (a / 2)) (halve_ones k),
  or-ones k (a / 2) (omega (arith, two-pow-succ k)),
)

pub xor-zero : (k a : ℕ) → a < 2 ^ k → bit_xor a 0 ≡ a
xor-zero zero a h = let e : a ≡ 0 = omega arith in rw e refl
xor-zero (suc k) a h =
    omega (arith, two-pow-succ k, xor_step a 0, xor-zero k (a / 2) (omega (arith, two-pow-succ k)))

pub xor_self : (k a : ℕ) → a < 2 ^ k → bit_xor a a ≡ 0
xor_self zero a h = let e : a ≡ 0 = omega arith in rw e refl
xor_self (suc k) a h =
    omega (arith, two-pow-succ k, xor_step a a, xor_self k (a / 2) (omega (arith, two-pow-succ k)))

pub and_comm : (k a b : ℕ) → a < 2 ^ k → b < 2 ^ k → bit_and a b ≡ bit_and b a
and_comm zero a b h g = let e : a ≡ 0 = omega arith in let d : b ≡ 0 = omega arith in rw (e, d) refl
and_comm (suc k) a b h g = omega (
  arith,
  and_step a b,
  and_step b a,
  and_comm k (a / 2) (b / 2) (omega (arith, two-pow-succ k)) (omega (arith, two-pow-succ k)),
)

pub or_comm : (k a b : ℕ) → a < 2 ^ k → b < 2 ^ k → bit_or a b ≡ bit_or b a
or_comm zero a b h g = let e : a ≡ 0 = omega arith in let d : b ≡ 0 = omega arith in rw (e, d) refl
or_comm (suc k) a b h g = omega (
  arith,
  or_step a b,
  or_step b a,
  or_comm k (a / 2) (b / 2) (omega (arith, two-pow-succ k)) (omega (arith, two-pow-succ k)),
)

-- No bit of a result stands above the operands.
pub and-lt : (k a b : ℕ) → a < 2 ^ k → b < 2 ^ k → bit_and a b < 2 ^ k
and-lt zero a b h g = let e : a ≡ 0 = omega arith in rw e (omega (arith, zero-and b))
and-lt (suc k) a b h g = omega (
  arith,
  two-pow-succ k,
  and_step a b,
  and-lt k (a / 2) (b / 2) (omega (arith, two-pow-succ k)) (omega (arith, two-pow-succ k)),
)

pub or-lt : (k a b : ℕ) → a < 2 ^ k → b < 2 ^ k → bit_or a b < 2 ^ k
or-lt zero a b h g = let e : a ≡ 0 = omega arith in rw e (omega (arith, zero-or b))
or-lt (suc k) a b h g = omega (
  arith,
  two-pow-succ k,
  or_step a b,
  or-lt k (a / 2) (b / 2) (omega (arith, two-pow-succ k)) (omega (arith, two-pow-succ k)),
)

pub xor-lt : (k a b : ℕ) → a < 2 ^ k → b < 2 ^ k → bit_xor a b < 2 ^ k
xor-lt zero a b h g = let e : a ≡ 0 = omega arith in rw e (omega (arith, zero-xor b))
xor-lt (suc k) a b h g = omega (
  arith,
  two-pow-succ k,
  xor_step a b,
  xor-lt k (a / 2) (b / 2) (omega (arith, two-pow-succ k)) (omega (arith, two-pow-succ k)),
)

-- A value below `2 ^ k` and a multiple of `2 ^ k` have no bit in common: their `|` is their sum.
pub or_disjoint : (k r q : ℕ) → r < 2 ^ k → bit_or r (q * 2 ^ k) ≡ r + q * 2 ^ k
or_disjoint zero r q h = let e : r ≡ 0 = omega arith in rw e (omega (arith, zero-or (q * 1)))
or_disjoint (suc k) r q h = omega (
  arith,
  or_step r (q * 2 ^ suc k),
  ap (bit_or (r / 2)) (halve_multiple q k),
  or_disjoint k (r / 2) q (omega (arith, two-pow-succ k)),
  double_multiple q k,
)

pub shift_twice : (a k : ℕ) → a / 2 ^ suc k ≡ a / 2 / 2 ^ k
shift_twice a k = rw (pow-succ' 2 k) (sym (div-div-eq-div-mul a 2 (2 ^ k)))

xor-halve : (a b : ℕ) → bit_xor a b / 2 ≡ bit_xor (a / 2) (b / 2)
xor-halve a b = omega (arith, xor_step a b)

-- The upper bits of an exclusive or are those of the operands' upper bits.
pub xor-shift : (k a b : ℕ) → bit_xor a b / 2 ^ k ≡ bit_xor (a / 2 ^ k) (b / 2 ^ k)
xor-shift zero a b =
    let e : (n : ℕ) → n / 1 ≡ n = λ n. omega arith in rw (e (bit_xor a b), e a, e b)
xor-shift (suc k) a b =
    rw (shift_twice (bit_xor a b) k, shift_twice a k, shift_twice b k, xor-halve a b)
      (xor-shift k (a / 2) (b / 2))

low_bit : (k a : ℕ) → a < 2 ^ k → bit_and a 1 ≡ a % 2
low_bit zero a h = let e : a ≡ 0 = omega arith in rw e refl
low_bit (suc k) a h =
    omega (arith, and_step a 1, and-zero k (a / 2) (omega (arith, two-pow-succ k)))

low_bits_two : (a : ℕ) → a < 2 ^ 64 → bit_and a 3 ≡ a % 4
low_bits_two a h = omega (arith, and_step a 3, low_bit 64 (a / 2) (omega arith))

low_bits_four : (a : ℕ) → a < 2 ^ 64 → bit_and a 15 ≡ a % 16
low_bits_four a h =
    omega (arith, and_step a 15, and_step (a / 2) 7, low_bits_two (a / 2 / 2) (omega arith))

low_bits_six : (a : ℕ) → a < 2 ^ 64 → bit_and a 63 ≡ a % 64
low_bits_six a h =
    omega (arith, and_step a 63, and_step (a / 2) 31, low_bits_four (a / 2 / 2) (omega arith))

-- Masking a word by 0xFF keeps its low byte.
pub and_byte : (a : ℕ) → a < 2 ^ 64 → bit_and a 0xFF ≡ a % 256
and_byte a h =
    omega (arith, and_step a 255, and_step (a / 2) 127, low_bits_six (a / 2 / 2) (omega arith))

-- Placing a byte beside a value shifted by eight bits.
pub or_byte :
    (k q b : ℕ) → q * 256 < 2 ^ k → 256 ≤ 2 ^ k → b < 256 → bit_or (q * 256) b ≡ q * 256 + b
or_byte k q b h w s = omega (arith, or_comm k (q * 256) b h (omega arith), or_disjoint 8 b q s)

pub xor_cancel : (k a b : ℕ) → a < 2 ^ k → b < 2 ^ k → bit_xor (bit_xor a b) b ≡ a
xor_cancel zero a b h g =
    let e : a ≡ 0 = omega arith in let d : b ≡ 0 = omega arith in rw (e, d) refl
xor_cancel (suc k) a b h g = omega (
  arith,
  two-pow-succ k,
  xor_step a b,
  xor_step (bit_xor a b) b,
  ap (λ (t : ℕ). bit_xor t (b / 2)) (xor-halve a b),
  xor_cancel k (a / 2) (b / 2) (omega (arith, two-pow-succ k)) (omega (arith, two-pow-succ k)),
)

and-halve : (a b : ℕ) → bit_and a b / 2 ≡ bit_and (a / 2) (b / 2)
and-halve a b = omega (arith, and_step a b)

and-digit : (a b : ℕ) → bit_and a b % 2 ≡ min (a % 2) (b % 2)
and-digit a b = omega (arith, and_step a b)

pub and_assoc : (k a b c : ℕ) → a < 2 ^ k → bit_and a (bit_and b c) ≡ bit_and (bit_and a b) c
and_assoc zero a b c h =
    let e : a ≡ 0 = omega arith in rw (e, zero-and (bit_and b c), zero-and b, zero-and c) refl
and_assoc (suc k) a b c h =
    let left : bit_and a (bit_and b c)
        ≡ bit_and (a / 2) (bit_and (b / 2) (c / 2)) * 2 + min (a % 2) (min (b % 2) (c % 2)) =
      omega
        (arith, and_step a (bit_and b c), ap (bit_and (a / 2)) (and-halve b c), and-digit b c) in
    let right : bit_and (bit_and a b) c
        ≡ bit_and (bit_and (a / 2) (b / 2)) (c / 2) * 2 + min (min (a % 2) (b % 2)) (c % 2) =
      omega (
        arith,
        and_step (bit_and a b) c,
        ap (λ (t : ℕ). bit_and t (c / 2)) (and-halve a b),
        and-digit a b,
      ) in
    omega (arith, left, right, and_assoc k (a / 2) (b / 2) (c / 2) (omega (arith, two-pow-succ k)))
