-- ===== src/Ir/Optimizer/Fold.antt =====
-- src/ir/optimizer.cpp: the classes of operations and the folding of operations on constants.
use uni_jit.Common.{ℕ, ◌^◌, bit_and, bit_or, bit_xor, Bool, true, false, not}
use uni_jit.Word
use uni_jit.Word.{truth}
use uni_jit.Word.ByteSwap.{byte_swap_word}
use uni_jit.Ir.Opcode.{Opcode, MemoryWidth}
use uni_jit.Ir.Float.{Float64}

-- The last operation of the chain of tests is the exclusive or.
unfoldable pub fold_binary : Opcode → ℕ → ℕ → ℕ
fold_binary Opcode.add lhs rhs = Word.add lhs rhs
fold_binary Opcode.subtract lhs rhs = Word.subtract lhs rhs
fold_binary Opcode.multiply lhs rhs = Word.multiply lhs rhs
fold_binary Opcode.bitwise_and lhs rhs = bit_and lhs rhs
fold_binary Opcode.bitwise_or lhs rhs = bit_or lhs rhs
fold_binary Opcode.shift_left lhs rhs = Word.shift_left lhs rhs
fold_binary Opcode.floor_divide lhs rhs = Word.floor_divide_word lhs rhs
fold_binary Opcode.floor_modulo lhs rhs = Word.floor_modulo_word lhs rhs
fold_binary Opcode.less_than lhs rhs = Word.less_than lhs rhs
fold_binary Opcode.less_equal lhs rhs = Word.less_equal lhs rhs
fold_binary Opcode.equal lhs rhs = Word.equal lhs rhs
fold_binary Opcode.not_equal lhs rhs = Word.not_equal lhs rhs
fold_binary _ lhs rhs = bit_xor lhs rhs

-- The last operation of the chain of tests is `!=`.
unfoldable pub fold_float_binary : Float64 → Opcode → ℕ → ℕ → ℕ
fold_float_binary float Opcode.float_add lhs rhs = float.plus lhs rhs
fold_float_binary float Opcode.float_subtract lhs rhs = float.minus lhs rhs
fold_float_binary float Opcode.float_multiply lhs rhs = float.times lhs rhs
fold_float_binary float Opcode.float_divide lhs rhs = float.over lhs rhs
fold_float_binary float Opcode.float_less_than lhs rhs = truth (float.less lhs rhs)
fold_float_binary float Opcode.float_less_equal lhs rhs = truth (float.less_or_same lhs rhs)
fold_float_binary float Opcode.float_equal lhs rhs = truth (float.same lhs rhs)
fold_float_binary float _ lhs rhs = truth (not (float.same lhs rhs))

unfoldable pub is_float_binary : Opcode → Bool
is_float_binary Opcode.float_add = true
is_float_binary Opcode.float_subtract = true
is_float_binary Opcode.float_multiply = true
is_float_binary Opcode.float_divide = true
is_float_binary Opcode.float_less_than = true
is_float_binary Opcode.float_less_equal = true
is_float_binary Opcode.float_equal = true
is_float_binary Opcode.float_not_equal = true
is_float_binary _ = false

unfoldable pub is_binary : Opcode → Bool
is_binary Opcode.add = true
is_binary Opcode.subtract = true
is_binary Opcode.multiply = true
is_binary Opcode.bitwise_and = true
is_binary Opcode.bitwise_or = true
is_binary Opcode.bitwise_xor = true
is_binary Opcode.shift_left = true
is_binary Opcode.floor_divide = true
is_binary Opcode.floor_modulo = true
is_binary Opcode.less_than = true
is_binary Opcode.less_equal = true
is_binary Opcode.equal = true
is_binary Opcode.not_equal = true
is_binary Opcode.float_add = true
is_binary Opcode.float_subtract = true
is_binary Opcode.float_multiply = true
is_binary Opcode.float_divide = true
is_binary Opcode.float_less_than = true
is_binary Opcode.float_less_equal = true
is_binary Opcode.float_equal = true
is_binary Opcode.float_not_equal = true
is_binary _ = false

unfoldable pub is_unary : Opcode → Bool
is_unary Opcode.negate = true
is_unary Opcode.bitwise_not = true
is_unary Opcode.byte_swap = true
is_unary Opcode.float_negate = true
is_unary _ = false

-- The immediate of a byte swap is its width.
unfoldable pub fold_unary : Opcode → ℕ → MemoryWidth → ℕ
fold_unary Opcode.negate value width = Word.negate value
fold_unary Opcode.bitwise_not value width = Word.bitwise_not value
fold_unary Opcode.byte_swap value width = byte_swap_word value width
fold_unary _ value width = bit_xor value (2 ^ 63)
