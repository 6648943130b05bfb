-- ===== src/Ir/Optimizer/Replace.antt =====
-- The algebraic simplifications of transform_once (src/ir/optimizer.cpp) against the interpreter's
-- arithmetic (src/ir/interpreter.cpp).
use uni_jit.Common.{
  ℕ, ◌≡◌, refl, ◌∙◌, sym, Bool, true, false, ◌||◌, if◌then◌else◌, Option, none, some, arith,
  Bool-cases, Option-cases, inl, inr, ==_iff,
}
use uni_jit.Common.Bits.{
  and-ones, and_comm, and_self, and-zero, zero-and, or-zero, or-ones, or_self, or_comm, zero-or,
  xor-zero, zero-xor, xor_self,
}
use uni_jit.Word.{IsWord}
use uni_jit.Word.Laws
use uni_jit.Ir.Opcode.{Opcode}
use uni_jit.Ir.Float.{Float64}
use uni_jit.Ir.Evaluate.{evaluate_binary}
use uni_jit.Ir.Optimizer.Decide.{
  Known, Decision, folded, simplified, replaced, emitted, is_known, both, minus_one, replace,
  simplify, replacement, same_operand,
}

-- Every node of the input has a word, and the known constants are the words of their nodes.
pub record Agrees (values : ℕ → ℕ) (known : Known) : Type 0 where
  pub are_words : (id : ℕ) → IsWord (values id)
  pub constants : (id c : ℕ) → known id ≡ some c → values id ≡ c

-- What a decision promises of the word `result` that the interpreter computes for the node.
abbrev pub Keeps : (ℕ → ℕ) → ℕ → Decision → Type 0
Keeps values result (folded c) = c ≡ result
Keeps values result (simplified c) = c ≡ result
Keeps values result (replaced id) = values id ≡ result
Keeps values result emitted = Unit

module _ (float : Float64) (values : ℕ → ℕ) (known : Known) (agrees : Agrees values known) where
  pub known_value : (id c : ℕ) → is_known known id c ≡ true → values id ≡ c
  known_value id c h = elim (Option-cases (known id)) [
    | inl e ↦ ground (arith, e)
    | inr (d, e) ↦ ground (arith, e, agrees.constants id d e)
  ]

  pub word : (id : ℕ) → IsWord (values id)
  word = agrees.are_words

  -- The replaced node computes what the node in its place computes.
  abbrev pub Replaces : Opcode → ℕ → ℕ → Option ℕ → Type 0
  Replaces opcode lhs rhs none = Unit
  Replaces opcode lhs rhs (some id) =
      values id ≡ evaluate_binary float opcode (values lhs) (values rhs)

  -- One test of the chain, and the rest of it.
  try :
      (opcode : Opcode) (lhs rhs : ℕ) (test : Bool) (hit miss : Option ℕ)
      → (test ≡ true → Replaces opcode lhs rhs hit)
      → Replaces opcode lhs rhs miss
      → Replaces opcode lhs rhs (if test then hit else miss)
  try opcode lhs rhs true hit miss h k = h refl
  try opcode lhs rhs false hit miss h k = k

  -- A test of two constants, either of which gives the result.
  either :
      {P : Type 0} (a b : ℕ) (c d : ℕ)
      → (values a ≡ c → P)
      → (values b ≡ d → P)
      → (is_known known a c || is_known known b d) ≡ true
      → P
  either a b c d f g h = elim (Bool-cases (is_known known a c)) [
    | inl e ↦ f (known_value a c e)
    | inr e ↦ g (known_value b d (rw e at h))
  ]

  replacement-and :
      (lhs rhs : ℕ)
      → Replaces Opcode.bitwise_and lhs rhs (replacement Opcode.bitwise_and lhs rhs known)
  unfolding replacement evaluate_binary
  replacement-and lhs rhs =
      try Opcode.bitwise_and lhs rhs _ _ _
        (either lhs rhs 0 minus_one (λ e. rw e (sym (zero-and (values rhs))))
          (λ e. rw e (sym (and-ones 64 (values lhs) (word lhs)))))
        (try Opcode.bitwise_and lhs rhs _ _ _
          (either rhs lhs 0 minus_one (λ e. rw e (sym (and-zero 64 (values lhs) (word lhs))))
            (λ e. rw e (
              sym (
                and_comm 64 minus_one (values rhs) (omega arith) (word rhs)
                ∙ and-ones 64 (values rhs) (word rhs)))))
          (try Opcode.bitwise_and lhs rhs _ _ _
            (λ e. rw (← (==_iff lhs rhs).0 e) (sym (and_self 64 (values lhs) (word lhs)))) tt))

  replacement-or :
      (lhs rhs : ℕ)
      → Replaces Opcode.bitwise_or lhs rhs (replacement Opcode.bitwise_or lhs rhs known)
  unfolding replacement evaluate_binary
  replacement-or lhs rhs =
      try Opcode.bitwise_or lhs rhs _ _ _
        (either lhs rhs minus_one 0
          (λ e. rw e (
            sym (
              or_comm 64 minus_one (values rhs) (omega arith) (word rhs)
              ∙ or-ones 64 (values rhs) (word rhs))))
          (λ e. rw e (sym (or-zero 64 (values lhs) (word lhs)))))
        (try Opcode.bitwise_or lhs rhs _ _ _
          (either rhs lhs minus_one 0 (λ e. rw e (sym (or-ones 64 (values lhs) (word lhs))))
            (λ e. rw e (sym (zero-or (values rhs)))))
          (try Opcode.bitwise_or lhs rhs _ _ _
            (λ e. rw (← (==_iff lhs rhs).0 e) (sym (or_self 64 (values lhs) (word lhs)))) tt))

  replacement-multiply :
      (lhs rhs : ℕ) → Replaces Opcode.multiply lhs rhs (replacement Opcode.multiply lhs rhs known)
  unfolding replacement evaluate_binary
  replacement-multiply lhs rhs =
      try Opcode.multiply lhs rhs _ _ _
        (λ e. rw (known_value lhs 0 e) (sym (Laws.zero-multiply _ (word rhs))))
        (try Opcode.multiply lhs rhs _ _ _
          (λ e. rw (known_value rhs 0 e) (sym (Laws.multiply-zero _ (word lhs))))
          (try Opcode.multiply lhs rhs _ _ _
            (λ e. rw (known_value lhs 1 e) (sym (Laws.one-multiply _ (word rhs))))
            (try Opcode.multiply lhs rhs _ _ _
              (λ e. rw (known_value rhs 1 e) (sym (Laws.multiply-one _ (word lhs)))) tt)))

  pub replacement-Replaces :
      (opcode : Opcode) (lhs rhs : ℕ) → Replaces opcode lhs rhs (replacement opcode lhs rhs known)
  unfolding replacement evaluate_binary
  replacement-Replaces Opcode.add lhs rhs =
      try Opcode.add lhs rhs _ _ _
        (λ e. rw (known_value rhs 0 e) (sym (Laws.add-zero _ (word lhs))))
        (try Opcode.add lhs rhs _ _ _
          (λ e. rw (known_value lhs 0 e) (sym (Laws.zero-add _ (word rhs)))) tt)
  replacement-Replaces Opcode.subtract lhs rhs =
      try Opcode.subtract lhs rhs _ _ _
        (λ e. rw (known_value rhs 0 e) (sym (Laws.subtract-zero _ (word lhs)))) tt
  replacement-Replaces Opcode.multiply lhs rhs = replacement-multiply lhs rhs
  replacement-Replaces Opcode.bitwise_and lhs rhs = replacement-and lhs rhs
  replacement-Replaces Opcode.bitwise_or lhs rhs = replacement-or lhs rhs
  replacement-Replaces Opcode.bitwise_xor lhs rhs =
      try Opcode.bitwise_xor lhs rhs _ _ _
        (λ e. rw (known_value rhs 0 e) (sym (xor-zero 64 (values lhs) (word lhs))))
        (try Opcode.bitwise_xor lhs rhs _ _ _
          (λ e. rw (known_value lhs 0 e) (sym (zero-xor (values rhs)))) tt)
  replacement-Replaces Opcode.shift_left lhs rhs =
      try Opcode.shift_left lhs rhs _ _ _
        (λ e. rw (known_value lhs 0 e) (sym (Laws.zero-shift_left _ (word rhs))))
        (try Opcode.shift_left lhs rhs _ _ _
          (λ e. rw (known_value rhs 0 e) (sym (Laws.shift_left-zero _ (word lhs)))) tt)
  replacement-Replaces Opcode.floor_divide lhs rhs =
      try Opcode.floor_divide lhs rhs _ _ _
        (λ e. rw (known_value rhs 1 e) (sym (Laws.floor_divide_word-one _ (word lhs)))) tt
  replacement-Replaces _ lhs rhs = tt

  -- The result where both operands are one node.
  abbrev pub Fixes : Opcode → ℕ → Option ℕ → Type 0
  Fixes opcode id none = Unit
  Fixes opcode id (some c) = c ≡ evaluate_binary float opcode (values id) (values id)

  pub same_operand-Fixes : (opcode : Opcode) (id : ℕ) → Fixes opcode id (same_operand opcode)
  unfolding same_operand evaluate_binary
  same_operand-Fixes Opcode.bitwise_xor id = sym (xor_self 64 (values id) (word id))
  same_operand-Fixes Opcode.less_than id = sym (Laws.less_than_self _ (word id))
  same_operand-Fixes Opcode.not_equal id = sym (Laws.not_equal_self _ (word id))
  same_operand-Fixes Opcode.less_equal id = sym (Laws.less_equal_self _ (word id))
  same_operand-Fixes Opcode.equal id = sym (Laws.equal_self _ (word id))
  same_operand-Fixes _ id = tt

  pub Keeps-replace :
      (opcode : Opcode) (lhs rhs : ℕ) (choice : Option ℕ)
      → Replaces opcode lhs rhs choice
      → Keeps values (evaluate_binary float opcode (values lhs) (values rhs)) (replace choice)
  unfolding replace
  Keeps-replace opcode lhs rhs none h = tt
  Keeps-replace opcode lhs rhs (some id) h = h

  pub Keeps-simplify :
      (result : ℕ) (fixed : Option ℕ) (other : Decision)
      → ((c : ℕ) → fixed ≡ some c → c ≡ result)
      → Keeps values result other
      → Keeps values result (simplify fixed other)
  unfolding simplify
  Keeps-simplify result none other f h = h
  Keeps-simplify result (some c) other f h = f c refl

  pub Keeps-both :
      (result : ℕ) (l r : Option ℕ) (other : Decision) (f : ℕ → ℕ → ℕ)
      → ((a b : ℕ) → l ≡ some a → r ≡ some b → f a b ≡ result)
      → Keeps values result other
      → Keeps values result (both l r other (λ a b. folded (f a b)))
  Keeps-both result (some a) (some b) other f g h = g a b refl refl
  Keeps-both result (some a) none other f g h = h
  Keeps-both result none r other f g h = h
