-- ===== src/Ir/Optimizer/Sound.antt =====
-- The decisions of transform_once (src/ir/optimizer.cpp) keep what the interpreter computes
-- (src/ir/interpreter.cpp).
use uni_jit.Common.{
  ℕ, ◌^◌, ◌≡◌, refl, ◌∙◌, true, false, if◌then◌else◌, Option, none, some, arith, Bool-cases,
  Option-cases, inl, inr, ◌==◌, ==_iff,
}
use uni_jit.Common.Bits.{xor_cancel}
use uni_jit.Word.{IsWord}
use uni_jit.Word.Laws
use uni_jit.Ir.Opcode.{Opcode, MemoryWidth}
use uni_jit.Ir.Float.{Float64}
use uni_jit.Ir.Evaluate.{evaluate_binary, evaluate_unary, guard_exits}
use uni_jit.Ir.Optimizer.Fold.{
  fold_binary, fold_float_binary, fold_unary, is_binary, is_float_binary, is_unary,
}
use uni_jit.Ir.Optimizer.Decide.{
  Known, simplified, replacement, same_operand, decide_binary, cancels, decide_unary, guard_passes,
  decide_guard,
}
use uni_jit.Ir.Optimizer.Replace.{
  Agrees, Keeps, replacement-Replaces, same_operand-Fixes, Keeps-replace, Keeps-simplify,
  Keeps-both,
}

-- On two constants the optimizer folds a binary integer operation to what the interpreter computes.
pub fold_binary-evaluate_binary :
    (float : Float64) (opcode : Opcode) (lhs rhs : ℕ)
    → is_binary opcode ≡ true
    → is_float_binary opcode ≡ false
    → fold_binary opcode lhs rhs ≡ evaluate_binary float opcode lhs rhs
unfolding fold_binary evaluate_binary is_binary is_float_binary
fold_binary-evaluate_binary float opcode lhs rhs h k = ground arith

-- On two constants the optimizer folds a binary operation on floats to what the interpreter computes.
pub fold_float_binary-evaluate_binary :
    (float : Float64) (opcode : Opcode) (lhs rhs : ℕ)
    → is_float_binary opcode ≡ true
    → fold_float_binary float opcode lhs rhs ≡ evaluate_binary float opcode lhs rhs
unfolding fold_float_binary evaluate_binary is_float_binary
fold_float_binary-evaluate_binary float opcode lhs rhs h = ground arith

-- On a constant the optimizer folds a unary operation to what the interpreter computes.
pub fold_unary-evaluate_unary :
    (float : Float64) (opcode : Opcode) (value : ℕ) (width : MemoryWidth)
    → is_unary opcode ≡ true
    → fold_unary opcode value width ≡ evaluate_unary float opcode value width
unfolding fold_unary evaluate_unary is_unary
fold_unary-evaluate_unary float opcode value width h = ground arith

module _ (float : Float64) (values : ℕ → ℕ) (known : Known) (agrees : Agrees values known) where
  same_node :
      (opcode : Opcode) (lhs rhs c : ℕ) (choice : Option ℕ)
      → same_operand opcode ≡ choice
      → (if lhs == rhs then choice else none) ≡ some c
      → c ≡ evaluate_binary float opcode (values lhs) (values rhs)
  same_node opcode lhs rhs c choice fixed h = elim (Bool-cases (lhs == rhs)) [
    | inl e ↦
        let chosen : same_operand opcode ≡ some c = fixed ∙ (rw e at h) in
        let law : c ≡ evaluate_binary float opcode (values lhs) (values lhs) =
          rw chosen at (same_operand-Fixes float values known agrees opcode lhs) in
        rw (← (==_iff lhs rhs).0 e) law
    | inr e ↦ let absent : none ≡ some c = (rw e at h) in cc
  ]

  decide_integer :
      (opcode : Opcode) (lhs rhs : ℕ)
      → is_binary opcode ≡ true
      → is_float_binary opcode ≡ false
      → Keeps values
          (evaluate_binary float opcode (values lhs) (values rhs))
          (decide_binary float opcode lhs rhs known)
  unfolding decide_binary
  decide_integer opcode lhs rhs binary integer = rw integer (
      Keeps-both float values known agrees _ (known lhs) (known rhs) _ (fold_binary opcode)
        (λ a b p q.
          rw (agrees.constants lhs a p, agrees.constants rhs b q)
            (fold_binary-evaluate_binary float opcode a b binary integer))
        (Keeps-simplify float values known agrees _
          (if lhs == rhs then same_operand opcode else none) _
          (λ c h. same_node opcode lhs rhs c (same_operand opcode) refl h)
          (Keeps-replace float values known agrees opcode lhs rhs (replacement opcode lhs rhs known)
            (replacement-Replaces float values known agrees opcode lhs rhs))))

  decide_float :
      (opcode : Opcode) (lhs rhs : ℕ)
      → is_float_binary opcode ≡ true
      → Keeps values
          (evaluate_binary float opcode (values lhs) (values rhs))
          (decide_binary float opcode lhs rhs known)
  unfolding decide_binary
  decide_float opcode lhs rhs floating = rw floating (
      Keeps-both float values known agrees _ (known lhs) (known rhs) _
        (fold_float_binary float opcode)
        (λ a b p q.
          rw (agrees.constants lhs a p, agrees.constants rhs b q)
            (fold_float_binary-evaluate_binary float opcode a b floating))
        tt)

  -- Whatever becomes of a binary node has the word that the interpreter computes for the node.
  pub decide_binary-Keeps :
      (opcode : Opcode) (lhs rhs : ℕ)
      → is_binary opcode ≡ true
      → Keeps values
          (evaluate_binary float opcode (values lhs) (values rhs))
          (decide_binary float opcode lhs rhs known)
  decide_binary-Keeps opcode lhs rhs binary = elim (Bool-cases (is_float_binary opcode)) [
    | inl e ↦ decide_float opcode lhs rhs e
    | inr e ↦ decide_integer opcode lhs rhs binary e
  ]

  cancels-evaluate_unary :
      (opcode inner : Opcode) (x : ℕ) (width inner_width : MemoryWidth)
      → IsWord x
      → cancels opcode inner ≡ true
      → (is_unary inner ≡ true)
        × (x ≡ evaluate_unary float opcode (evaluate_unary float inner x inner_width) width)
  unfolding cancels is_unary evaluate_unary
  cancels-evaluate_unary opcode inner x width inner_width h e = ground (
    arith,
    Laws.negate-negate x h,
    Laws.bitwise_not-bitwise_not x h,
    xor_cancel 64 x (2 ^ 63) h (omega arith),
  )

  -- Whatever becomes of a unary node has the word that the interpreter computes for the node, if
  -- the operand holds what its own node computes.
  pub decide_unary-Keeps :
      (opcode : Opcode) (width inner_width : MemoryWidth) (operand : ℕ) (inner : Opcode)
      (inner_operand : ℕ)
      → is_unary opcode ≡ true
      → (is_unary inner ≡ true
          → values operand ≡ evaluate_unary float inner (values inner_operand) inner_width)
      → Keeps values
          (evaluate_unary float opcode (values operand) width)
          (decide_unary opcode width operand inner inner_operand known)
  unfolding decide_unary
  decide_unary-Keeps opcode width inner_width operand inner inner_operand unary computed =
      elim (Option-cases (known operand)) [
        | inl e ↦
            rw (e, decide_unary)
              (elim (Bool-cases (cancels opcode inner)) [
                | inl c ↦
                    let law =
                      cancels-evaluate_unary opcode inner (values inner_operand) width inner_width
                        (agrees.are_words inner_operand) c in
                    rw c (rw (computed law.0) law.1)
                | inr c ↦ rw c tt
              ])
        | inr (d, e) ↦
            rw (e, decide_unary)
              (rw (agrees.constants operand d e)
                (fold_unary-evaluate_unary float opcode d width unary))
      ]

  -- A guard that becomes a constant does not leave the function, and the constant is 0.
  pub decide_guard-passes :
      (opcode : Opcode) (guarded c : ℕ)
      → decide_guard float opcode guarded known ≡ simplified c
      → (guard_exits float opcode (values guarded) ≡ false) × (c ≡ 0)
  unfolding decide_guard guard_passes guard_exits
  decide_guard-passes opcode guarded c h = elim (Option-cases (known guarded)) [
    | inl e ↦ ground (arith, e)
    | inr (d, e) ↦ ground (arith, e, agrees.constants guarded d e)
  ]
