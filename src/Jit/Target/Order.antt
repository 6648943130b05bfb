-- ===== src/Jit/Target/Order.antt =====
-- One target serving for another (src/jit/target.cpp).
use mathlib.Core.Path.{subst}
use uni_jit.Common.{
  ℕ, ◌^◌, ◌<◌, ◌≡◌, ◌↔◌, sym, ap, ◌∙◌, bit_and, true, leb, ==→eq, eq→==, ==_refl, and-five, and-six,
  ◌==◌, arith,
}
use uni_jit.Common.Bits.{and_assoc}
use uni_jit.Jit.Target.{
  TargetArchitecture, TargetAbi, TargetEndianness, VectorWidthPolicy, TargetProfile,
  architecture_number, abi_number, endianness_number, policy_number, target_profile_contains,
  target_profiles_equal,
}

same_architecture :
    (a b : TargetArchitecture) → architecture_number a ≡ architecture_number b → a ≡ b
same_architecture a b h = ground arith

same_abi : (a b : TargetAbi) → abi_number a ≡ abi_number b → a ≡ b
same_abi a b h = ground arith

same_endianness : (a b : TargetEndianness) → endianness_number a ≡ endianness_number b → a ≡ b
same_endianness a b h = ground arith

same_policy : (a b : VectorWidthPolicy) → policy_number a ≡ policy_number b → a ≡ b
same_policy a b h = ground arith

module _ (lhs rhs : TargetProfile) where
  equal_tests : (target_profiles_equal lhs rhs ≡ true) ↔ (
      ((architecture_number lhs.architecture == architecture_number rhs.architecture) ≡ true)
      × ((abi_number lhs.abi == abi_number rhs.abi) ≡ true)
      × ((endianness_number lhs.endianness == endianness_number rhs.endianness) ≡ true)
      × ((lhs.features == rhs.features) ≡ true)
      × ((policy_number lhs.vector_width_policy == policy_number rhs.vector_width_policy) ≡ true)
      × ((lhs.maximum_vector_bits == rhs.maximum_vector_bits) ≡ true))
  unfolding target_profiles_equal
  equal_tests = and-six _ _ _ _ _ _

  contains_tests : (target_profile_contains lhs rhs ≡ true) ↔ (
      ((architecture_number lhs.architecture == architecture_number rhs.architecture) ≡ true)
      × ((abi_number lhs.abi == abi_number rhs.abi) ≡ true)
      × ((endianness_number lhs.endianness == endianness_number rhs.endianness) ≡ true)
      × ((bit_and lhs.features rhs.features == rhs.features) ≡ true)
      × (leb rhs.maximum_vector_bits lhs.maximum_vector_bits ≡ true))
  unfolding target_profile_contains
  contains_tests = and-five _ _ _ _ _

  same_fields :
      lhs.architecture ≡ rhs.architecture
      → lhs.abi ≡ rhs.abi
      → lhs.endianness ≡ rhs.endianness
      → lhs.features ≡ rhs.features
      → lhs.vector_width_policy ≡ rhs.vector_width_policy
      → lhs.maximum_vector_bits ≡ rhs.maximum_vector_bits
      → lhs ≡ rhs
  same_fields a b c d e f = cc

-- target_profiles_equal tells exactly whether two profiles are the same.
pub target_profiles_equal_iff :
    (lhs rhs : TargetProfile) → (target_profiles_equal lhs rhs ≡ true) ↔ (lhs ≡ rhs)
target_profiles_equal_iff lhs rhs = (
  (λ h.
      let (a, b, c, d, e, f) = (equal_tests lhs rhs).0 h in
      same_fields lhs rhs (same_architecture lhs.architecture rhs.architecture (==→eq a))
        (same_abi lhs.abi rhs.abi (==→eq b))
        (same_endianness lhs.endianness rhs.endianness (==→eq c)) (==→eq d)
        (same_policy lhs.vector_width_policy rhs.vector_width_policy (==→eq e)) (==→eq f)),
  λ e.
      subst (λ p. target_profiles_equal lhs p ≡ true) e
        ((equal_tests lhs lhs).1
          (==_refl _, ==_refl _, ==_refl _, ==_refl _, ==_refl _, ==_refl _)),
)

-- Serving for a target is transitive: what serves for a target serves for all that the target
-- serves for. Features are words.
pub target_profile_contains_trans :
    (a b c : TargetProfile)
    → a.features < 2 ^ 64
    → target_profile_contains a b ≡ true
    → target_profile_contains b c ≡ true
    → target_profile_contains a c ≡ true
target_profile_contains_trans a b c small h g =
    let (h₀, h₁, h₂, h₃, h₄) = (contains_tests a b).0 h in
    let (g₀, g₁, g₂, g₃, g₄) = (contains_tests b c).0 g in
    let kept : bit_and a.features c.features ≡ c.features =
      ap (bit_and a.features) (sym (==→eq g₃))
      ∙ and_assoc 64 a.features b.features c.features small
      ∙ ap (λ (t : ℕ). bit_and t c.features) (==→eq h₃)
      ∙ ==→eq g₃ in
    (contains_tests a c).1 (
      eq→== (==→eq h₀ ∙ ==→eq g₀),
      eq→== (==→eq h₁ ∙ ==→eq g₁),
      eq→== (==→eq h₂ ∙ ==→eq g₂),
      eq→== kept,
      ground (arith, h₄, g₄),
    )
