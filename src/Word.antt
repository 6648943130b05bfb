-- ===== src/Word.antt =====
-- include/unijit/ir/vector.h (`Word`), src/ir/function.cpp and src/ir/interpreter.cpp: the 64-bit
-- word of the intermediate representation, its signed view and the integer operations on it.
-- A word is kept as its bit pattern, a number below 2 ^ 64: `to_bits`, `from_bits` and the `memcpy`
-- between `std::int64_t` and `std::uint64_t` are the identity on it.
pub mod Floor
pub mod ByteSwap
pub mod Laws
use uni_jit.Common.{
  ℕ, ◌+◌, ◌-◌, ◌*◌, ◌/◌, ◌%◌, ◌^◌, ◌<◌, bit_xor, Bool, true, false, ◌||◌, ◌&&◌, not, ltb, leb, ◌==◌,
  if◌then◌else◌,
}
use uni_jit.Common.Int.{ℤ, pos, negsuc}

abbrev pub word_mod : ℕ
word_mod = 2 ^ 64

abbrev pub IsWord : ℕ → Type 0
IsWord w = w < 2 ^ 64

-- The sign bit.
abbrev pub is_negative : ℕ → Bool
is_negative w = leb (2 ^ 63) w

-- The integer that a word stands for.
abbrev pub signed : ℕ → ℤ
signed w = if is_negative w then negsuc (2 ^ 64 - w - 1) else pos w

-- |w|, which needs 64 bits for the least word.
abbrev pub magnitude : ℕ → ℕ
magnitude w = if is_negative w then 2 ^ 64 - w else w

unfoldable pub negate : ℕ → ℕ
negate w = (2 ^ 64 - w) % 2 ^ 64

unfoldable pub bitwise_not : ℕ → ℕ
bitwise_not w = 2 ^ 64 - 1 - w

unfoldable pub add : ℕ → ℕ → ℕ
add lhs rhs = (lhs + rhs) % 2 ^ 64

unfoldable pub subtract : ℕ → ℕ → ℕ
subtract lhs rhs = (lhs + 2 ^ 64 - rhs) % 2 ^ 64

unfoldable pub multiply : ℕ → ℕ → ℕ
multiply lhs rhs = lhs * rhs % 2 ^ 64

-- The quotient and remainder of `std::int64_t` division, which round towards zero, for operands
-- whose quotient is representable.
abbrev pub truncated_quotient : ℕ → ℕ → ℕ
truncated_quotient lhs rhs =
    let q = magnitude lhs / magnitude rhs in
    if is_negative lhs
    then if is_negative rhs then q else (2 ^ 64 - q) % 2 ^ 64
    else if is_negative rhs
    then (2 ^ 64 - q) % 2 ^ 64
    else q

abbrev pub truncated_remainder : ℕ → ℕ → ℕ
truncated_remainder lhs rhs =
    let r = magnitude lhs % magnitude rhs in if is_negative lhs then (2 ^ 64 - r) % 2 ^ 64 else r

unfoldable pub floor_divide_word : ℕ → ℕ → ℕ
unfolding negate
floor_divide_word lhs rhs =
    if rhs == 0
    then 0
    else if rhs == 2 ^ 64 - 1
    then negate lhs
    else let quotient = truncated_quotient lhs rhs in
      if is_negative (bit_xor lhs rhs) && not (truncated_remainder lhs rhs == 0)
      then (quotient + 2 ^ 64 - 1) % 2 ^ 64
      else quotient

unfoldable pub floor_modulo_word : ℕ → ℕ → ℕ
floor_modulo_word lhs rhs =
    if rhs == 0 || rhs == 2 ^ 64 - 1
    then 0
    else let remainder = truncated_remainder lhs rhs in
      if not (remainder == 0) && is_negative (bit_xor remainder rhs)
      then (remainder + rhs) % 2 ^ 64
      else remainder

-- A negative amount shifts logically to the right.
unfoldable pub shift_left : ℕ → ℕ → ℕ
unfolding negate
shift_left value amount =
    if is_negative amount
    then if leb 64 (negate amount) then 0 else value / 2 ^ negate amount
    else if leb 64 amount
    then 0
    else value * 2 ^ amount % 2 ^ 64

abbrev pub signed_lt : ℕ → ℕ → Bool
signed_lt lhs rhs =
    if is_negative lhs
    then if is_negative rhs then ltb lhs rhs else true
    else if is_negative rhs
    then false
    else ltb lhs rhs

abbrev pub truth : Bool → ℕ
truth b = if b then 1 else 0

unfoldable pub less_than : ℕ → ℕ → ℕ
less_than lhs rhs = truth (signed_lt lhs rhs)

unfoldable pub less_equal : ℕ → ℕ → ℕ
less_equal lhs rhs = truth (not (signed_lt rhs lhs))

unfoldable pub equal : ℕ → ℕ → ℕ
equal lhs rhs = truth (lhs == rhs)

unfoldable pub not_equal : ℕ → ℕ → ℕ
not_equal lhs rhs = truth (not (lhs == rhs))
