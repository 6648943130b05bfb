-- ===== src/Word/Laws.antt =====
-- The algebraic identities of word arithmetic that the optimizer (src/ir/optimizer.cpp) relies on.
use native.Mathlib.Nat.{div-one, mod-one, zero-div}
use uni_jit.Common.{ℕ, ◌-◌, ◌^◌, ◌≡◌, arith}
use uni_jit.Word.{
  IsWord, negate, bitwise_not, add, subtract, multiply, shift_left, floor_divide_word, less_than,
  less_equal, equal, not_equal,
}
use uni_jit.Word.Floor.Values.{is_negative-xor}

module _ (a : ℕ) (h : IsWord a) where
  pub add-zero : add a 0 ≡ a
  unfolding add
  add-zero = omega arith

  pub zero-add : add 0 a ≡ a
  unfolding add
  zero-add = omega arith

  pub subtract-zero : subtract a 0 ≡ a
  unfolding subtract
  subtract-zero = omega arith

  pub multiply-one : multiply a 1 ≡ a
  unfolding multiply
  multiply-one = omega arith

  pub one-multiply : multiply 1 a ≡ a
  unfolding multiply
  one-multiply = omega arith

  pub multiply-zero : multiply a 0 ≡ 0
  unfolding multiply
  multiply-zero = omega arith

  pub zero-multiply : multiply 0 a ≡ 0
  unfolding multiply
  zero-multiply = omega arith

  pub shift_left-zero : shift_left a 0 ≡ a
  unfolding shift_left
  shift_left-zero = omega arith

  pub zero-shift_left : shift_left 0 a ≡ 0
  unfolding shift_left
  zero-shift_left = ground (arith, zero-div (2 ^ negate a))

  pub floor_divide_word-one : floor_divide_word a 1 ≡ a
  unfolding floor_divide_word
  floor_divide_word-one = ground (
    arith,
    is_negative-xor a 1 h (omega arith),
    div-one a,
    mod-one a,
    div-one (2 ^ 64 - a),
    mod-one (2 ^ 64 - a),
  )

  pub negate-negate : negate (negate a) ≡ a
  unfolding negate
  negate-negate = omega arith

  pub bitwise_not-bitwise_not : bitwise_not (bitwise_not a) ≡ a
  unfolding bitwise_not
  bitwise_not-bitwise_not = omega arith

  pub less_than_self : less_than a a ≡ 0
  unfolding less_than
  less_than_self = ground arith

  pub less_equal_self : less_equal a a ≡ 1
  unfolding less_equal
  less_equal_self = ground arith

  pub equal_self : equal a a ≡ 1
  unfolding equal
  equal_self = ground arith

  pub not_equal_self : not_equal a a ≡ 0
  unfolding not_equal
  not_equal_self = ground arith
