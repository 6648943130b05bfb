-- ===== src/Tests/Folding.antt =====
-- The optimizer's decisions (src/ir/optimizer.cpp) on concrete nodes.
use uni_jit.Common.{
  ℕ, ◌+◌, ◌-◌, ◌%◌, ◌^◌, ◌≡◌, refl, false, none, some, ltb, leb, ◌==◌, if◌then◌else◌, arith,
}
use uni_jit.Ir.Opcode.{Opcode, MemoryWidth}
use uni_jit.Ir.Float.{Float64}
use uni_jit.Ir.Evaluate.{evaluate_binary, evaluate_unary, guard_exits}
use uni_jit.Ir.Optimizer.Fold.{
  fold_binary, fold_float_binary, fold_unary, is_binary, is_float_binary, is_unary,
}
use uni_jit.Ir.Optimizer.Decide.{Known, decide_binary, decide_unary, decide_guard, guard_passes}
use uni_jit.Ir.Optimizer.Replace.{Agrees, Keeps}
use uni_jit.Ir.Optimizer.Sound.{
  fold_binary-evaluate_binary, fold_float_binary-evaluate_binary, fold_unary-evaluate_unary,
  decide_binary-Keeps, decide_unary-Keeps, decide_guard-passes,
}

-- A stand-in for the host's doubles, for running the tests.
abbrev host_float : Float64
host_float = record {
  plus = λ a b. (a + b) % 2 ^ 64;
  minus = λ a b. a;
  times = λ a b. b;
  over = λ a b. a;
  less = ltb;
  less_or_same = leb;
  same = λ a b. a == b;
}

-- Node 1 is the constant 0, node 2 the constant 5.
abbrev node_values : ℕ → ℕ
node_values id = if id == 1 then 0 else if id == 2 then 5 else 7

abbrev node_known : Known
node_known id = if id == 1 then some 0 else if id == 2 then some 5 else none

nodes_agree : Agrees node_values node_known
nodes_agree = record { are_words = λ id. ground arith; constants = λ id c h. ground (arith, h) }

fold_binary_example :
    fold_binary Opcode.floor_modulo (2 ^ 64 - 7) 3
    ≡ evaluate_binary host_float Opcode.floor_modulo (2 ^ 64 - 7) 3
fold_binary_example =
    fold_binary-evaluate_binary host_float Opcode.floor_modulo (2 ^ 64 - 7) 3
      (unfold is_binary in refl) (unfold is_float_binary in refl)

fold_float_binary_example :
    fold_float_binary host_float Opcode.float_less_than 3 4
    ≡ evaluate_binary host_float Opcode.float_less_than 3 4
fold_float_binary_example =
    fold_float_binary-evaluate_binary host_float Opcode.float_less_than 3 4
      (unfold is_float_binary in refl)

fold_unary_example :
    fold_unary Opcode.byte_swap 4660 MemoryWidth.k16
    ≡ evaluate_unary host_float Opcode.byte_swap 4660 MemoryWidth.k16
fold_unary_example =
    fold_unary-evaluate_unary host_float Opcode.byte_swap 4660 MemoryWidth.k16
      (unfold is_unary in refl)

decide_binary_example :
    Keeps node_values
      (evaluate_binary host_float Opcode.add (node_values 0) (node_values 1))
      (decide_binary host_float Opcode.add 0 1 node_known)
decide_binary_example =
    decide_binary-Keeps host_float node_values node_known nodes_agree Opcode.add 0 1
      (unfold is_binary in refl)

decide_unary_example :
    Keeps node_values
      (evaluate_unary host_float Opcode.negate (node_values 2) MemoryWidth.k64)
      (decide_unary Opcode.negate MemoryWidth.k64 2 Opcode.constant 0 node_known)
decide_unary_example =
    decide_unary-Keeps host_float node_values node_known nodes_agree Opcode.negate MemoryWidth.k64
      MemoryWidth.k64 2 Opcode.constant 0 (unfold is_unary in refl)
      (unfold is_unary in (λ h. absurd (ground (arith, h))))

decide_guard_example :
    (guard_exits host_float Opcode.guard_word_nonzero (node_values 2) ≡ false) × (◌≡◌ {A = ℕ} 0 0)
decide_guard_example =
    decide_guard-passes host_float node_values node_known nodes_agree Opcode.guard_word_nonzero 2 0
      (unfold decide_guard guard_passes in refl)
