-- ===== src/Jit/Target.antt =====
-- include/unijit/jit/target.h and src/jit/target.cpp: what a target profile must satisfy, when one
-- target serves for another, and the key of a profile. Asking the processor for its features is not
-- modelled. A profile's features are bits 0 to 10 of a word, in the order of TargetFeature.
pub mod Order
use uni_jit.Common.{
  ℕ, ◌+◌, ◌-◌, ◌*◌, ◌/◌, ◌%◌, ◌^◌, bit_and, bit_xor, Bool, true, false, not, ◌&&◌, ◌||◌, ltb, leb,
  if◌then◌else◌, ◌==◌,
}
use uni_jit.Status.{StatusCode, Status, status, ok_status}

pub data TargetArchitecture : Type 0 where
  unknown_architecture aarch64 x86_64 riscv64 : TargetArchitecture

pub data TargetAbi : Type 0 where
  unknown_abi aapcs64 system_v windows_x64 riscv_elf : TargetAbi

pub data TargetEndianness : Type 0 where
  unknown_endianness little big : TargetEndianness

pub data VectorWidthPolicy : Type 0 where
  portable128 native_width : VectorWidthPolicy

pub record TargetProfile : Type 0 where
  pub architecture : TargetArchitecture
  pub abi : TargetAbi
  pub endianness : TargetEndianness
  pub features : ℕ
  pub vector_width_policy : VectorWidthPolicy
  pub maximum_vector_bits : ℕ

-- The numbers of the enumerations.
abbrev pub architecture_number : TargetArchitecture → ℕ
architecture_number TargetArchitecture.unknown_architecture = 0
architecture_number TargetArchitecture.aarch64 = 1
architecture_number TargetArchitecture.x86_64 = 2
architecture_number TargetArchitecture.riscv64 = 3

abbrev pub abi_number : TargetAbi → ℕ
abi_number TargetAbi.unknown_abi = 0
abi_number TargetAbi.aapcs64 = 1
abi_number TargetAbi.system_v = 2
abi_number TargetAbi.windows_x64 = 3
abi_number TargetAbi.riscv_elf = 4

abbrev pub endianness_number : TargetEndianness → ℕ
endianness_number TargetEndianness.unknown_endianness = 0
endianness_number TargetEndianness.little = 1
endianness_number TargetEndianness.big = 2

abbrev pub policy_number : VectorWidthPolicy → ℕ
policy_number VectorWidthPolicy.portable128 = 0
policy_number VectorWidthPolicy.native_width = 1

abbrev pub avx_bit : ℕ
avx_bit = 2 ^ 3

abbrev pub avx2_bit : ℕ
avx2_bit = 2 ^ 4

abbrev pub fma_bit : ℕ
fma_bit = 2 ^ 5

abbrev pub has_target_feature : TargetProfile → ℕ → Bool
has_target_feature profile feature = not (bit_and profile.features feature == 0)

unfoldable pub abi_matches_architecture : TargetArchitecture → TargetAbi → Bool
abi_matches_architecture TargetArchitecture.aarch64 TargetAbi.aapcs64 = true
abi_matches_architecture TargetArchitecture.x86_64 TargetAbi.system_v = true
abi_matches_architecture TargetArchitecture.x86_64 TargetAbi.windows_x64 = true
abi_matches_architecture TargetArchitecture.riscv64 TargetAbi.riscv_elf = true
abi_matches_architecture _ _ = false

-- FP64 and NEON; FP64 and SSE2; FP64, integer multiply and RISC-V doubles.
abbrev pub required_features : TargetArchitecture → ℕ
required_features TargetArchitecture.aarch64 = 2 ^ 0 + 2 ^ 1
required_features TargetArchitecture.x86_64 = 2 ^ 0 + 2 ^ 2
required_features TargetArchitecture.riscv64 = 2 ^ 0 + 2 ^ 6 + 2 ^ 7
required_features TargetArchitecture.unknown_architecture = 0

abbrev pub allowed_features : TargetArchitecture → ℕ
allowed_features TargetArchitecture.aarch64 = 2 ^ 0 + 2 ^ 1 + 2 ^ 9
allowed_features TargetArchitecture.x86_64 = 2 ^ 0 + 2 ^ 2 + 2 ^ 3 + 2 ^ 4 + 2 ^ 5
allowed_features TargetArchitecture.riscv64 = 2 ^ 0 + 2 ^ 6 + 2 ^ 7 + 2 ^ 8 + 2 ^ 10
allowed_features TargetArchitecture.unknown_architecture = 0

abbrev pub is_portable : VectorWidthPolicy → Bool
is_portable VectorWidthPolicy.portable128 = true
is_portable VectorWidthPolicy.native_width = false

abbrev pub invalid_target : Status
invalid_target = status StatusCode.invalid_argument 0

-- The last test of the source, for a policy that is neither constant, has no counterpart.
unfoldable pub validate_target_profile : TargetProfile → Status
validate_target_profile profile =
    if not (abi_matches_architecture profile.architecture profile.abi)
    then invalid_target
    else if not (endianness_number profile.endianness == 1)
    then invalid_target
    else if not (bit_and profile.features (2 ^ 64 - 1 - allowed_features profile.architecture) == 0)
    then invalid_target
    else if not (
        bit_and profile.features (required_features profile.architecture)
        == required_features profile.architecture)
    then invalid_target
    else if has_target_feature profile avx2_bit && not (has_target_feature profile avx_bit)
    then invalid_target
    else if has_target_feature profile fma_bit && not (has_target_feature profile avx_bit)
    then invalid_target
    else if ltb profile.maximum_vector_bits 128 || not (profile.maximum_vector_bits % 128 == 0)
    then invalid_target
    else if is_portable profile.vector_width_policy && not (profile.maximum_vector_bits == 128)
    then invalid_target
    else ok_status

unfoldable pub target_profile_contains : TargetProfile → TargetProfile → Bool
target_profile_contains available required =
    architecture_number available.architecture == architecture_number required.architecture
    && abi_number available.abi == abi_number required.abi
    && endianness_number available.endianness == endianness_number required.endianness
    && bit_and available.features required.features == required.features
    && leb required.maximum_vector_bits available.maximum_vector_bits

unfoldable pub target_profiles_equal : TargetProfile → TargetProfile → Bool
target_profiles_equal lhs rhs =
    architecture_number lhs.architecture == architecture_number rhs.architecture
    && abi_number lhs.abi == abi_number rhs.abi
    && endianness_number lhs.endianness == endianness_number rhs.endianness
    && lhs.features == rhs.features
    && policy_number lhs.vector_width_policy == policy_number rhs.vector_width_policy
    && lhs.maximum_vector_bits == rhs.maximum_vector_bits

unfoldable pub hash_byte : ℕ → ℕ → ℕ
hash_byte value hash = bit_xor hash value * 1099511628211 % 2 ^ 64

unfoldable pub target_profile_key : TargetProfile → ℕ
unfolding hash_byte
target_profile_key profile =
    let f = profile.features in
    hash_byte (profile.maximum_vector_bits / 2 ^ 8 % 256) (
      hash_byte (profile.maximum_vector_bits % 256) (
        hash_byte (policy_number profile.vector_width_policy) (
          hash_byte (f / 2 ^ 56 % 256) (
            hash_byte (f / 2 ^ 48 % 256) (
              hash_byte (f / 2 ^ 40 % 256) (
                hash_byte (f / 2 ^ 32 % 256) (
                  hash_byte (f / 2 ^ 24 % 256) (
                    hash_byte (f / 2 ^ 16 % 256) (
                      hash_byte (f / 2 ^ 8 % 256) (
                        hash_byte (f % 256) (
                          hash_byte (endianness_number profile.endianness) (
                            hash_byte (abi_number profile.abi) (
                              hash_byte (architecture_number profile.architecture)
                                14695981039346656037)))))))))))))
