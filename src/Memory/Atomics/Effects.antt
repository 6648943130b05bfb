-- ===== src/Memory/Atomics/Effects.antt =====
-- What the operations of src/ir/atomic_access.cpp make of a value, in terms of numbers of `n` bytes.
use mathlib.Core.Path.{subst}
use native.Mathlib.Nat.{mod-mod, mod-mod_of_dvd, add-mod-mod, mul-mod_right, dvd_of_mod-eq-zero}
use uni_jit.Common.{
  ℕ, ◌+◌, ◌-◌, ◌*◌, ◌%◌, ◌^◌, ◌≤◌, ◌<◌, ap, sym, ◌∙◌, ◌≡◌, ◌≢◌, refl, ◌⊎◌, inl, inr, bit_and,
  bit_or, bit_xor, Bool, true, false, ◌==◌, ==→eq, eq→==, Bool-cases, if◌then◌else◌, if_true,
  if_false, arith,
}
use uni_jit.Common.Masks.{and-mask}
use uni_jit.Memory.Bytes.{pow_256, pow_256_add}
use uni_jit.Memory.Atomics.{AtomicOperation, width_mask, perform_atomic, atomic_result}

-- What an operation leaves behind, what it gives, and what it says of a comparison.
abbrev pub Effect :
    AtomicOperation → (n observed value desired after result : ℕ) → (succeeds : Bool) → Type 0
Effect AtomicOperation.load n o v d after result succeeds =
    (after ≡ o) × (result ≡ o) × (succeeds ≡ false)
Effect AtomicOperation.store n o v d after result succeeds =
    (after ≡ v % 256 ^ n) × (result ≡ v) × (succeeds ≡ false)
Effect AtomicOperation.exchange n o v d after result succeeds =
    (after ≡ v % 256 ^ n) × (result ≡ o) × (succeeds ≡ false)
Effect AtomicOperation.compare_exchange n o v d after result succeeds =
    (((o ≡ v % 256 ^ n) × (after ≡ d % 256 ^ n) × (succeeds ≡ true))
      ⊎ ((o ≢ v % 256 ^ n) × (after ≡ o) × (succeeds ≡ false)))
    × (result ≡ o)
Effect AtomicOperation.fetch_add n o v d after result succeeds =
    (after ≡ (o + v) % 256 ^ n) × (result ≡ o) × (succeeds ≡ false)
Effect AtomicOperation.fetch_and n o v d after result succeeds =
    (after ≡ bit_and o (v % 256 ^ n) % 256 ^ n) × (result ≡ o) × (succeeds ≡ false)
Effect AtomicOperation.fetch_or n o v d after result succeeds =
    (after ≡ bit_or o (v % 256 ^ n) % 256 ^ n) × (result ≡ o) × (succeeds ≡ false)
Effect AtomicOperation.fetch_xor n o v d after result succeeds =
    (after ≡ bit_xor o (v % 256 ^ n) % 256 ^ n) × (result ≡ o) × (succeeds ≡ false)

pub width_mask_ones : (n : ℕ) → n ≤ 8 → width_mask n ≡ 2 ^ (n * 8) - 1
unfolding width_mask
width_mask_ones n h = elim (eight n h) [ inl e ↦ rw e refl | inr lt ↦ ground arith ]
  where
    eight : (n : ℕ) → n ≤ 8 → (n ≡ 8) ⊎ (n < 8)
    eight n h = omega arith

masked : (n v : ℕ) → n ≤ 8 → bit_and v (width_mask n) ≡ v % 256 ^ n
masked n v h =
    ap (bit_and v) (width_mask_ones n h) ∙ and-mask (n * 8) v ∙ ap (λ (t : ℕ). v % t) (pow_256 n)

-- A wrap at 64 bits does not show below it.
wrapped : (n x : ℕ) → n ≤ 8 → x % 2 ^ 64 % 256 ^ n ≡ x % 256 ^ n
wrapped n x h =
    let eight : n + (8 - n) ≡ 8 = omega arith in
    let whole : 256 ^ n * 256 ^ (8 - n) ≡ 2 ^ 64 =
      pow_256_add n (8 - n) ∙ ap (λ (t : ℕ). 256 ^ t) eight in
    mod-mod_of_dvd (256 ^ n) x (
      dvd_of_mod-eq-zero (256 ^ n)
        (ap (λ (t : ℕ). t % 256 ^ n) (sym whole) ∙ mul-mod_right (256 ^ n) (256 ^ (8 - n))))

added :
    (n o v : ℕ)
    → n ≤ 8
    → bit_and ((o + v % 256 ^ n) % 2 ^ 64) (width_mask n) % 256 ^ n ≡ (o + v) % 256 ^ n
added n o v h =
    ap (λ (t : ℕ). t % 256 ^ n) (masked n ((o + v % 256 ^ n) % 2 ^ 64) h)
    ∙ mod-mod ((o + v % 256 ^ n) % 2 ^ 64) (256 ^ n)
    ∙ wrapped n (o + v % 256 ^ n) h
    ∙ add-mod-mod o v (256 ^ n)

-- What a location holds after an operation, as a number of `n` bytes.
abbrev pub settled : ℕ → ℕ → ℕ × Bool × Bool → ℕ
settled n observed (replacement, write, succeeds) =
    if write then replacement % 256 ^ n else observed

-- What an access of `n` bytes performs on what it observes.
abbrev pub performed : ℕ → AtomicOperation → ℕ → ℕ → ℕ → ℕ × Bool × Bool
performed n operation observed value desired =
    perform_atomic operation (width_mask n) observed (bit_and value (width_mask n))
      (bit_and desired (width_mask n))

abbrev Does : AtomicOperation → ℕ → ℕ → ℕ → ℕ → ℕ → ℕ → Type 0
Does operation n o v d operand replacement =
    let p = perform_atomic operation (width_mask n) o operand replacement in
    Effect operation n o v d (settled n o p) (atomic_result operation v o) p.2

Does-masked :
    (operation : AtomicOperation) (n o v d : ℕ)
    → n ≤ 8
    → Does operation n o v d (v % 256 ^ n) (d % 256 ^ n)
unfolding perform_atomic
Does-masked AtomicOperation.load n o v d h = (refl, refl, refl)
Does-masked AtomicOperation.store n o v d h = (mod-mod v (256 ^ n), refl, refl)
Does-masked AtomicOperation.exchange n o v d h = (mod-mod v (256 ^ n), refl, refl)
Does-masked AtomicOperation.compare_exchange n o v d h = elim (Bool-cases (o == v % 256 ^ n)) [
  | inl same ↦ (inl (==→eq same, if_true _ _ same ∙ mod-mod d (256 ^ n), same), refl)
  | inr other ↦ (inr (λ e. ground (arith, other, eq→== e), if_false _ _ other, other), refl)
]
Does-masked AtomicOperation.fetch_add n o v d h = (added n o v h, refl, refl)
Does-masked AtomicOperation.fetch_and n o v d h = (refl, refl, refl)
Does-masked AtomicOperation.fetch_or n o v d h = (refl, refl, refl)
Does-masked AtomicOperation.fetch_xor n o v d h = (refl, refl, refl)

pub performed-Effect :
    (operation : AtomicOperation) (n o v d : ℕ)
    → n ≤ 8
    → Effect operation n o v d
        (settled n o (performed n operation o v d))
        (atomic_result operation v o)
        (performed n operation o v d).2
performed-Effect operation n o v d h =
    subst (λ (operand : ℕ). Does operation n o v d operand (bit_and d (width_mask n)))
      (sym (masked n v h))
      (subst (λ (replacement : ℕ). Does operation n o v d (v % 256 ^ n) replacement)
        (sym (masked n d h)) (Does-masked operation n o v d h))
