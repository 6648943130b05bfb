-- ===== src/Memory/Extension.antt =====
-- The extension by the sign that a bounded load may ask for (src/ir/memory_access.cpp).
use native.Mathlib.Nat.{two-pow-succ, one-le-pow, div-one, div-eq_of_lt, div-eq-sub-div}
use uni_jit.Common.{
  ℕ, zero, suc, ◌+◌, ◌-◌, ◌*◌, ◌/◌, ◌^◌, ◌≤◌, ◌<◌, ap, sym, ◌∙◌, ◌≡◌, refl, ◌⊎◌, inl, inr, bit_and,
  bit_or, Bool, true, false, arith,
}
use uni_jit.Common.Bits.{and_step, and-ones, or_disjoint, double_multiple, shift_twice}
use uni_jit.Ir.Opcode.{MemoryWidth, memory_width_bytes}
use uni_jit.Memory.{extend_sign}

-- The number of `n` bytes as a word: itself, or, if its sign is asked for and set, with ones above it.
abbrev pub Extended : Bool → ℕ → ℕ → ℕ → Type 0
Extended false n x y = y ≡ x
Extended true n x y =
    ((x < 2 ^ (n * 8 - 1)) × (y ≡ x)) ⊎ ((2 ^ (n * 8 - 1) ≤ x) × (y ≡ x + (2 ^ 64 - 2 ^ (n * 8))))

-- The highest bit of a number.
and-top : (k x : ℕ) → x < 2 ^ suc k → bit_and x (2 ^ k) ≡ x / 2 ^ k * 2 ^ k
and-top zero x h = and-ones 1 x h ∙ omega (arith, div-one x)
and-top (suc k) x h =
    let q : ℕ = x / 2 / 2 ^ k in
    let half : 2 ^ suc k / 2 ≡ 2 ^ k = omega (arith, two-pow-succ k) in
    omega (
      arith,
      two-pow-succ k,
      two-pow-succ (suc k),
      and_step x (2 ^ suc k),
      ap (bit_and (x / 2)) half,
      and-top k (x / 2) (omega (arith, two-pow-succ (suc k))),
      ap (λ (t : ℕ). t * 2 ^ suc k) (shift_twice x k),
      double_multiple q k,
    )

top_clear : (k x : ℕ) → x < 2 ^ k → bit_and x (2 ^ k) ≡ 0
top_clear k x h =
    omega (
      arith,
      and-top k x (omega (arith, two-pow-succ k)),
      ap (λ (t : ℕ). t * 2 ^ k) (div-eq_of_lt h),
    )

top_set : (k x : ℕ) → 2 ^ k ≤ x → x < 2 ^ suc k → bit_and x (2 ^ k) ≡ 2 ^ k
top_set k x h lt =
    let once : x / 2 ^ k ≡ 1 =
      div-eq-sub-div (one-le-pow k 2 (omega arith)) h
      ∙ ap (λ (t : ℕ). t + 1) (div-eq_of_lt {n = x - 2 ^ k} (omega (arith, two-pow-succ k))) in
    omega (arith, and-top k x lt, ap (λ (t : ℕ). t * 2 ^ k) once)

-- The ones above the bits of a width.
ones_above :
    (width : MemoryWidth)
    → memory_width_bytes width ≤ 8
    → (2 ^ (64 - memory_width_bytes width * 8) - 1) * 2 ^ (memory_width_bytes width * 8)
      ≡ 2 ^ 64 - 2 ^ (memory_width_bytes width * 8)
ones_above MemoryWidth.k8 h = refl
ones_above MemoryWidth.k16 h = refl
ones_above MemoryWidth.k32 h = refl
ones_above MemoryWidth.k64 h = refl
ones_above MemoryWidth.k128 h = absurd (omega arith)

positive_width : (width : MemoryWidth) → 1 ≤ memory_width_bytes width
positive_width MemoryWidth.k8 = omega arith
positive_width MemoryWidth.k16 = omega arith
positive_width MemoryWidth.k32 = omega arith
positive_width MemoryWidth.k64 = omega arith
positive_width MemoryWidth.k128 = omega arith

below_or_above : (x m : ℕ) → (x < m) ⊎ (m ≤ x)
below_or_above x m = omega arith

extend_large :
    (n x filled : ℕ)
    → n ≤ 8
    → bit_and x (2 ^ (n * 8 - 1)) ≡ 2 ^ (n * 8 - 1)
    → bit_or x (2 ^ 64 - 2 ^ (n * 8)) ≡ filled
    → (n ≡ 8 → x ≡ filled)
    → extend_sign true n x ≡ filled
unfolding extend_sign
extend_large n x filled h set e whole =
    let positive : 1 ≤ 2 ^ (n * 8 - 1) = one-le-pow (n * 8 - 1) 2 (omega arith) in
    elim (below_or_above n 8) [
      | inl narrow ↦ ground (arith, set, e, narrow, positive)
      | inr wide ↦ let eight : n ≡ 8 = omega arith in ground (arith, whole eight, wide)
    ]

extend_small : (n x : ℕ) → bit_and x (2 ^ (n * 8 - 1)) ≡ 0 → extend_sign true n x ≡ x
unfolding extend_sign
extend_small n x clear = ground (arith, clear)

pub extend_sign-Extended :
    (sign : Bool) (width : MemoryWidth) (x : ℕ)
    → memory_width_bytes width ≤ 8
    → x < 2 ^ (memory_width_bytes width * 8)
    → Extended sign (memory_width_bytes width) x (extend_sign sign (memory_width_bytes width) x)
extend_sign-Extended false width x h lt = unfold extend_sign in refl
extend_sign-Extended true width x h lt =
    let n : ℕ = memory_width_bytes width in
    let k : ℕ = n * 8 - 1 in
    let more : suc k ≡ n * 8 = omega (arith, positive_width width) in
    elim (below_or_above x (2 ^ k)) [
      | inl small ↦ inl (small, extend_small n x (top_clear k x small))
      | inr large ↦
          let set = top_set k x large (omega (arith, lt, ap (λ (t : ℕ). 2 ^ t) more)) in
          let filled : bit_or x (2 ^ 64 - 2 ^ (n * 8)) ≡ x + (2 ^ 64 - 2 ^ (n * 8)) =
            ap (bit_or x) (sym (ones_above width h))
            ∙ or_disjoint (n * 8) x (2 ^ (64 - n * 8) - 1) lt
            ∙ ap (λ (t : ℕ). x + t) (ones_above width h) in
          inr (
            large,
            extend_large n x (x + (2 ^ 64 - 2 ^ (n * 8))) h set filled
                (λ eight. omega (arith, ap (λ (t : ℕ). 2 ^ (t * 8)) eight)),
          )
    ]
