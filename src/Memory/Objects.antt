-- ===== src/Memory/Objects.antt =====
-- src/ir/object_access.cpp, include/unijit/ir/object.h and include/unijit/runtime/trusted_object.h:
-- typed fields of objects that the host binds. A Word takes eight bytes and is aligned to eight, and
-- `host` says whether the host is little endian, which decides what memcpy reads and writes.
pub mod Bindings
use uni_jit.Common.{
  ℕ, zero, suc, ◌+◌, ◌-◌, ◌^◌, bit_and, Bool, true, false, not, ◌&&◌, ◌||◌, Option, none, some,
  List, [], ◌∷◌, ltb, leb, ◌==◌, if◌then◌else◌, length,
}
use uni_jit.Status.{StatusCode, Status, status, ok_status, is_ok, Result, success, failure}
use uni_jit.Memory.Loops.{Memory, load_loop, store_loop}

-- `address` is the data pointer, and 0 is the null pointer.
pub record TrustedObject : Type 0 where
  pub address : ℕ
  pub size : ℕ
  pub layout_identity : ℕ
  pub writable : Bool

pub record TrustedObjectDescriptor : Type 0 where
  pub layout_identity : ℕ
  pub byte_size : ℕ

-- The fields of ExecutionContext that bind the objects.
pub record ObjectContext : Type 0 where
  pub trusted_objects : Option (ℕ → TrustedObject)
  pub trusted_object_count : ℕ

abbrev pub invalid_binding : ℕ → Status
invalid_binding index = status StatusCode.invalid_argument index

-- `id` is the id of a slot.
abbrev pub is_valid_slot : ℕ → Bool
is_valid_slot id = not (id == 2 ^ 32 - 1)

-- One round of the loop, and `rest` is what the rounds behind it give.
unfoldable pub check_binding : TrustedObjectDescriptor → Bool → TrustedObject → ℕ → Status → Status
check_binding descriptor writable object index rest =
    if not (object.layout_identity == descriptor.layout_identity)
    then invalid_binding index
    else if object.address == 0 || ltb object.size descriptor.byte_size
    then invalid_binding index
    else if not (bit_and object.address (8 - 1) == 0)
        || ltb (2 ^ 64 - 1 - object.address) object.size
    then invalid_binding index
    else if writable && not object.writable
    then invalid_binding index
    else rest

-- The lists have the same length.
unfoldable pub check_bindings :
    (ℕ → TrustedObject) → ℕ → List TrustedObjectDescriptor → List Bool → Status
check_bindings objects index [] ws = ok_status
check_bindings objects index (d ∷ ds) [] = ok_status
check_bindings objects index (d ∷ ds) (w ∷ ws) =
    check_binding d w (objects index) index (check_bindings objects (index + 1) ds ws)

-- The checks on a list that is not empty.
unfoldable pub check_bound :
    List TrustedObjectDescriptor → List Bool → Option ObjectContext → Status
check_bound descriptors writable none = invalid_binding 0
check_bound descriptors writable (some c) = elim c.trusted_objects [
  | none ↦ invalid_binding 0
  | some objects ↦
      if ltb c.trusted_object_count (length descriptors)
      then invalid_binding 0
      else check_bindings objects 0 descriptors writable
]

unfoldable pub validate_trusted_object_bindings :
    List TrustedObjectDescriptor → List Bool → Option ObjectContext → Status
validate_trusted_object_bindings descriptors writable context =
    if not (length writable == length descriptors)
    then invalid_binding 0
    else if length descriptors == 0
    then ok_status
    else check_bound descriptors writable context

unfoldable pub check_field : ℕ → ℕ → Bool → TrustedObject → Result ℕ
check_field id byte_offset store object =
    if store && not object.writable
    then failure (invalid_binding id)
    else if ltb object.size byte_offset || ltb (object.size - byte_offset) 8
    then failure (invalid_binding id)
    else if not (bit_and (object.address + byte_offset) (8 - 1) == 0)
    then failure (invalid_binding id)
    else success (object.address + byte_offset)

unfoldable pub resolve_field : ℕ → ℕ → Bool → Option ObjectContext → Result ℕ
resolve_field id byte_offset store none = failure (invalid_binding id)
resolve_field id byte_offset store (some c) = elim c.trusted_objects [
  | none ↦ failure (invalid_binding id)
  | some objects ↦
      if not (is_valid_slot id) || leb c.trusted_object_count id
      then failure (invalid_binding id)
      else check_field id byte_offset store (objects id)
]

-- What the two operations do once the field is resolved, or refused.
abbrev pub load_field : Bool → Memory → Result ℕ → Result ℕ
load_field host memory (failure s) = failure s
load_field host memory (success address) = success (load_loop memory address host 8 8 0 0)

abbrev pub store_field : Bool → Memory → ℕ → Result ℕ → Memory × Result ℕ
store_field host memory value (failure s) = (memory, failure s)
store_field host memory value (success address) =
    (store_loop memory address host 8 8 0 value, success value)

unfoldable pub load_trusted_object : Bool → Memory → ℕ → ℕ → Option ObjectContext → Result ℕ
load_trusted_object host memory id byte_offset context =
    load_field host memory (resolve_field id byte_offset false context)

unfoldable pub store_trusted_object :
    Bool → Memory → ℕ → ℕ → ℕ → Option ObjectContext → Memory × Result ℕ
store_trusted_object host memory id byte_offset value context =
    store_field host memory value (resolve_field id byte_offset true context)

-- The loop of bind_trusted_objects over `rounds` objects from `index` on.
unfoldable pub check_objects : (ℕ → TrustedObject) → ℕ → ℕ → Status
check_objects objects index zero = ok_status
check_objects objects index (suc rounds) =
    let rest = check_objects objects (index + 1) rounds in
    let object = objects index in
    if object.layout_identity == 0
    then invalid_binding index
    else if not (object.size == 0) && object.address == 0
    then invalid_binding index
    else if ltb (2 ^ 64 - 1 - object.address) object.size
    then invalid_binding index
    else rest

unfoldable pub bind_trusted_objects :
    Option (ℕ → TrustedObject) → ℕ → ObjectContext → ObjectContext × Status
bind_trusted_objects none count c =
    if count == 0
    then (record { trusted_objects = none; trusted_object_count = count }, ok_status)
    else (c, invalid_binding 0)
bind_trusted_objects (some objects) count c =
    let s = check_objects objects 0 count in
    if is_ok s
    then (record { trusted_objects = some objects; trusted_object_count = count }, s)
    else (c, s)
