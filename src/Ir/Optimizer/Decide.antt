-- ===== src/Ir/Optimizer/Decide.antt =====
-- src/ir/optimizer.cpp, transform_once: what becomes of a live unary, binary or guard node, given
-- the operands that are known to be constant. Nodes are named by their index in the input.
use uni_jit.Common.{
  ℕ, ◌^◌, ◌-◌, Bool, true, false, not, ◌||◌, Option, none, some, ◌==◌, if◌then◌else◌,
}
use uni_jit.Ir.Opcode.{Opcode, MemoryWidth}
use uni_jit.Ir.Float.{Float64}
use uni_jit.Ir.Optimizer.Fold.{fold_binary, fold_float_binary, fold_unary, is_float_binary}

-- `known_constant` and `constant_value`, together.
abbrev pub Known : Type 0
Known = ℕ → Option ℕ

-- A constant counted as folded, a constant counted as simplified, the node that takes the place of
-- this one, or the same operation on the mapped operands.
-- `emitted` is the node's own operation on the operands as they are mapped; the source spells out a call of
-- the builder for each operation there, and the builder is not modelled.
pub data Decision : Type 0 where
  folded : ℕ → Decision
  simplified : ℕ → Decision
  replaced : ℕ → Decision
  emitted : Decision

abbrev pub is_known : Known → ℕ → ℕ → Bool
is_known known id value = elim (known id) [ none ↦ false | some c ↦ c == value ]

abbrev pub both {ℓ} : {A : Type ℓ} → Option ℕ → Option ℕ → A → (ℕ → ℕ → A) → A
both (some l) (some r) other f = f l r
both _ _ other f = other

abbrev pub minus_one : ℕ
minus_one = 2 ^ 64 - 1

-- The choice of `replacement`; none stands for `node_count`.
unfoldable pub replacement : Opcode → ℕ → ℕ → Known → Option ℕ
replacement Opcode.add lhs rhs known =
    if is_known known rhs 0 then some lhs else if is_known known lhs 0 then some rhs else none
replacement Opcode.subtract lhs rhs known = if is_known known rhs 0 then some lhs else none
replacement Opcode.multiply lhs rhs known =
    if is_known known lhs 0
    then some lhs
    else if is_known known rhs 0
    then some rhs
    else if is_known known lhs 1
    then some rhs
    else if is_known known rhs 1
    then some lhs
    else none
replacement Opcode.bitwise_and lhs rhs known =
    if is_known known lhs 0 || is_known known rhs minus_one
    then some lhs
    else if is_known known rhs 0 || is_known known lhs minus_one
    then some rhs
    else if lhs == rhs
    then some lhs
    else none
replacement Opcode.bitwise_or lhs rhs known =
    if is_known known lhs minus_one || is_known known rhs 0
    then some lhs
    else if is_known known rhs minus_one || is_known known lhs 0
    then some rhs
    else if lhs == rhs
    then some lhs
    else none
replacement Opcode.bitwise_xor lhs rhs known =
    if is_known known rhs 0 then some lhs else if is_known known lhs 0 then some rhs else none
replacement Opcode.shift_left lhs rhs known =
    if is_known known lhs 0 then some lhs else if is_known known rhs 0 then some lhs else none
replacement Opcode.floor_divide lhs rhs known = if is_known known rhs 1 then some lhs else none
replacement _ lhs rhs known = none

-- An operation whose result is fixed where both operands are one node.
unfoldable pub same_operand : Opcode → Option ℕ
same_operand Opcode.bitwise_xor = some 0
same_operand Opcode.less_than = some 0
same_operand Opcode.not_equal = some 0
same_operand Opcode.less_equal = some 1
same_operand Opcode.equal = some 1
same_operand _ = none

unfoldable pub replace : Option ℕ → Decision
replace none = emitted
replace (some id) = replaced id

unfoldable pub simplify : Option ℕ → Decision → Decision
simplify none other = other
simplify (some c) other = simplified c

unfoldable pub decide_binary : Float64 → Opcode → ℕ → ℕ → Known → Decision
unfolding replace simplify
decide_binary float opcode lhs rhs known =
    if is_float_binary opcode
    then both (known lhs) (known rhs) emitted (λ l r. folded (fold_float_binary float opcode l r))
    else both (known lhs) (known rhs)
        (simplify (if lhs == rhs then same_operand opcode else none)
          (replace (replacement opcode lhs rhs known)))
        (λ l r. folded (fold_binary opcode l r))

-- Whether two unary operations undo one another: the same operation, and not a byte swap.
unfoldable pub cancels : Opcode → Opcode → Bool
cancels Opcode.negate Opcode.negate = true
cancels Opcode.bitwise_not Opcode.bitwise_not = true
cancels Opcode.float_negate Opcode.float_negate = true
cancels _ _ = false

-- `inner` is the operation of the operand, and `inner_operand` that node's own operand.
unfoldable pub decide_unary : Opcode → MemoryWidth → ℕ → Opcode → ℕ → Known → Decision
decide_unary opcode width operand inner inner_operand known = elim (known operand) [
  | some c ↦ folded (fold_unary opcode c width)
  | none ↦ if cancels opcode inner then replaced inner_operand else emitted
]

-- The test of `known_nonzero`, which is the one that the interpreter makes of a guard.
unfoldable pub guard_passes : Float64 → Opcode → ℕ → Bool
guard_passes float Opcode.guard_word_nonzero c = not (c == 0)
guard_passes float _ c = not (float.same c 0)

-- A guard on a constant that is known to be nonzero becomes the constant 0.
unfoldable pub decide_guard : Float64 → Opcode → ℕ → Known → Decision
decide_guard float opcode guarded known = elim (known guarded) [
  | none ↦ emitted
  | some c ↦ if guard_passes float opcode c then simplified 0 else emitted
]
