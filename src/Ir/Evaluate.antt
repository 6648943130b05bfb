-- ===== src/Ir/Evaluate.antt =====
-- evaluate_binary of src/ir/interpreter.cpp, the interpreter's arithmetic on two words.
use uni_jit.Common.{ℕ, ◌^◌, bit_and, bit_or, bit_xor, not, Bool, false, ◌==◌}
use uni_jit.Word
use uni_jit.Word.{truth}
use uni_jit.Word.ByteSwap.{byte_swap_word}
use uni_jit.Ir.Opcode.{Opcode, MemoryWidth}
use uni_jit.Ir.Float.{Float64}

-- An operation that the interpreter handles elsewhere gives 0 here.
unfoldable pub evaluate_binary : Float64 → Opcode → ℕ → ℕ → ℕ
evaluate_binary float Opcode.add lhs rhs = Word.add lhs rhs
evaluate_binary float Opcode.subtract lhs rhs = Word.subtract lhs rhs
evaluate_binary float Opcode.multiply lhs rhs = Word.multiply lhs rhs
evaluate_binary float Opcode.bitwise_and lhs rhs = bit_and lhs rhs
evaluate_binary float Opcode.bitwise_or lhs rhs = bit_or lhs rhs
evaluate_binary float Opcode.bitwise_xor lhs rhs = bit_xor lhs rhs
evaluate_binary float Opcode.shift_left lhs rhs = Word.shift_left lhs rhs
evaluate_binary float Opcode.floor_divide lhs rhs = Word.floor_divide_word lhs rhs
evaluate_binary float Opcode.floor_modulo lhs rhs = Word.floor_modulo_word lhs rhs
evaluate_binary float Opcode.less_than lhs rhs = Word.less_than lhs rhs
evaluate_binary float Opcode.less_equal lhs rhs = Word.less_equal lhs rhs
evaluate_binary float Opcode.equal lhs rhs = Word.equal lhs rhs
evaluate_binary float Opcode.not_equal lhs rhs = Word.not_equal lhs rhs
evaluate_binary float Opcode.negate lhs rhs = Word.negate lhs
evaluate_binary float Opcode.bitwise_not lhs rhs = Word.bitwise_not lhs
evaluate_binary float Opcode.float_add lhs rhs = float.plus lhs rhs
evaluate_binary float Opcode.float_subtract lhs rhs = float.minus lhs rhs
evaluate_binary float Opcode.float_negate lhs rhs = bit_xor lhs (2 ^ 63)
evaluate_binary float Opcode.float_multiply lhs rhs = float.times lhs rhs
evaluate_binary float Opcode.float_divide lhs rhs = float.over lhs rhs
evaluate_binary float Opcode.float_less_than lhs rhs = truth (float.less lhs rhs)
evaluate_binary float Opcode.float_less_equal lhs rhs = truth (float.less_or_same lhs rhs)
evaluate_binary float Opcode.float_equal lhs rhs = truth (float.same lhs rhs)
evaluate_binary float Opcode.float_not_equal lhs rhs = truth (not (float.same lhs rhs))
evaluate_binary float _ lhs rhs = 0

-- Interpreter::evaluate on a unary node: a byte swap is handled apart, and an absent right operand
-- is read as 0.
unfoldable pub evaluate_unary : Float64 → Opcode → ℕ → MemoryWidth → ℕ
unfolding evaluate_binary
evaluate_unary float Opcode.byte_swap value width = byte_swap_word value width
evaluate_unary float opcode value width = evaluate_binary float opcode value 0

-- Whether a guard node leaves the function with a runtime exit.
unfoldable pub guard_exits : Float64 → Opcode → ℕ → Bool
guard_exits float Opcode.guard_word_nonzero value = value == 0
guard_exits float Opcode.guard_float_nonzero value = float.same value 0
guard_exits float _ value = false
