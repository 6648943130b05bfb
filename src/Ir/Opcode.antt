-- ===== src/Ir/Opcode.antt =====
-- include/unijit/ir/function.h, vector.h and memory.h: the operation codes of a straight-line
-- function, the types of its values and the widths and byte orders of memory accesses.
use uni_jit.Common.{
  ℕ, Bool, true, none, ==_refl, ◌==◌, List, [], ◌∷◌, some, get_elem?, ◌≡◌, refl, sym, ap, ◌∙◌,
  ==→eq,
}

pub data Opcode : Type 0 where
  parameter constant : Opcode
  add subtract multiply bitwise_and bitwise_or bitwise_xor shift_left : Opcode
  floor_divide floor_modulo less_than less_equal equal not_equal : Opcode
  negate bitwise_not byte_swap : Opcode
  float_add float_subtract float_negate float_multiply float_divide : Opcode
  float_less_than float_less_equal float_equal float_not_equal : Opcode
  guard_word_nonzero guard_float_nonzero call fast_call safepoint : Opcode
  load_word store_word load_float store_float load_vector store_vector : Opcode
  atomic_load atomic_store atomic_exchange atomic_compare_exchange : Opcode
  atomic_fetch_add atomic_fetch_and atomic_fetch_or atomic_fetch_xor atomic_fence : Opcode
  load_frame store_frame load_object store_object load_patch_cell : Opcode
  vector_constant vector_splat vector_extract_lane vector_insert_lane : Opcode
  vector_unary vector_binary vector_compare vector_select : Opcode
  vector_lane_sign_mask vector_shuffle vector_widen : Opcode

pub data ValueType : Type 0 where
  word float64 : ValueType
  i8x16 i16x8 i32x4 i64x2 f32x4 f64x2 : ValueType
  mask8x16 mask16x8 mask32x4 mask64x2 : ValueType

pub data MemoryWidth : Type 0 where
  k8 k16 k32 k64 k128 : MemoryWidth

pub data MemoryByteOrder : Type 0 where
  native little_endian big_endian : MemoryByteOrder

abbrev pub memory_width_bytes : MemoryWidth → ℕ
memory_width_bytes MemoryWidth.k8 = 1
memory_width_bytes MemoryWidth.k16 = 2
memory_width_bytes MemoryWidth.k32 = 4
memory_width_bytes MemoryWidth.k64 = 8
memory_width_bytes MemoryWidth.k128 = 16

-- The source compares the enumeration's numbers.
abbrev pub type_number : ValueType → ℕ
type_number ValueType.word = 0
type_number ValueType.float64 = 1
type_number ValueType.i8x16 = 2
type_number ValueType.i16x8 = 3
type_number ValueType.i32x4 = 4
type_number ValueType.i64x2 = 5
type_number ValueType.f32x4 = 6
type_number ValueType.f64x2 = 7
type_number ValueType.mask8x16 = 8
type_number ValueType.mask16x8 = 9
type_number ValueType.mask32x4 = 10
type_number ValueType.mask64x2 = 11

abbrev pub same_type : ValueType → ValueType → Bool
same_type a b = type_number a == type_number b

types : List ValueType
types =
    ValueType.word ∷ ValueType.float64 ∷ ValueType.i8x16 ∷ ValueType.i16x8 ∷ ValueType.i32x4
    ∷ ValueType.i64x2 ∷ ValueType.f32x4 ∷ ValueType.f64x2 ∷ ValueType.mask8x16 ∷ ValueType.mask16x8
    ∷ ValueType.mask32x4 ∷ ValueType.mask64x2 ∷ []

numbered : (a : ValueType) → get_elem? types (type_number a) ≡ some a
unfolding types
numbered ValueType.word = refl
numbered ValueType.float64 = refl
numbered ValueType.i8x16 = refl
numbered ValueType.i16x8 = refl
numbered ValueType.i32x4 = refl
numbered ValueType.i64x2 = refl
numbered ValueType.f32x4 = refl
numbered ValueType.f64x2 = refl
numbered ValueType.mask8x16 = refl
numbered ValueType.mask16x8 = refl
numbered ValueType.mask32x4 = refl
numbered ValueType.mask64x2 = refl

pub same_type→eq : (a b : ValueType) → same_type a b ≡ true → a ≡ b
same_type→eq a b h =
    ap (λ o. elim o [ none ↦ a | some t ↦ t ])
      (sym (numbered a) ∙ ap (get_elem? types) (==→eq h) ∙ numbered b)

pub same_type_refl : (a : ValueType) → same_type a a ≡ true
same_type_refl a = ==_refl (type_number a)
