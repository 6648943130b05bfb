-- ===== src/Tests/Fields.antt =====
-- Fields of two bound objects (src/ir/object_access.cpp): one of 32 bytes at address 64 that may be
-- written, and one of 16 bytes at address 128 that may not.
use uni_jit.Common.{ℕ, zero, suc, ◌+◌, ◌≡◌, refl, true, false, some, none, List, [], ◌∷◌, arith}
use uni_jit.Status.{ok_status, success, failure}
use uni_jit.Memory.Loops.{Memory}
use uni_jit.Memory.Objects.{
  TrustedObject, TrustedObjectDescriptor, ObjectContext, invalid_binding, check_objects,
  bind_trusted_objects, check_binding, check_bindings, check_bound, check_field,
  validate_trusted_object_bindings, resolve_field, load_trusted_object, store_trusted_object,
}
use uni_jit.Memory.Objects.Bindings.{
  resolve_field-validated, load_trusted_object-store_trusted_object,
}

abbrev two_objects : ℕ → TrustedObject
two_objects zero = record { address = 64; size = 32; layout_identity = 7; writable = true }
two_objects (suc id) = record { address = 128; size = 16; layout_identity = 9; writable = false }

abbrev objects_context : ObjectContext
objects_context = record { trusted_objects = some two_objects; trusted_object_count = 2 }

abbrev two_layouts : List TrustedObjectDescriptor
two_layouts =
    record { layout_identity = 7; byte_size = 24 }
    ∷ record { layout_identity = 9; byte_size = 16 }
    ∷ []

abbrev zeros : Memory
zeros address = 0

objects_bind :
    bind_trusted_objects
      (some two_objects)
      2
      (record { trusted_objects = none; trusted_object_count = 0 })
    ≡ (objects_context, ok_status)
unfolding bind_trusted_objects check_objects
objects_bind = refl

objects_valid :
    validate_trusted_object_bindings two_layouts (true ∷ false ∷ []) (some objects_context)
    ≡ ok_status
unfolding validate_trusted_object_bindings check_bound check_bindings check_binding
objects_valid = refl

read_only_refused :
    validate_trusted_object_bindings two_layouts (true ∷ true ∷ []) (some objects_context)
    ≡ invalid_binding 1
unfolding validate_trusted_object_bindings check_bound check_bindings check_binding
read_only_refused = refl

misaligned_refused : resolve_field 0 12 false (some objects_context) ≡ failure (invalid_binding 0)
unfolding resolve_field check_field
misaligned_refused = refl

field_resolves_example :
    (objects : (ℕ → TrustedObject)) × (objects_context.trusted_objects ≡ some objects)
    × (resolve_field 0 16 true (some objects_context) ≡ success ((objects 0).address + 16))
field_resolves_example =
    resolve_field-validated two_layouts (true ∷ false ∷ []) objects_context objects_valid 0
      (record { layout_identity = 7; byte_size = 24 }) true refl refl 16 true (omega arith)
      (λ h. refl) (omega arith) refl

field_round_trip_example :
    (memory' : Memory) × (store_trusted_object true zeros 0 16 65280 (some objects_context)
      ≡ (memory', success 65280))
    × (load_trusted_object true memory' 0 16 (some objects_context) ≡ success 65280)
field_round_trip_example =
    load_trusted_object-store_trusted_object two_layouts (true ∷ false ∷ []) objects_context
      objects_valid 0 (record { layout_identity = 7; byte_size = 24 }) true refl refl true zeros 16
      65280 (λ a. omega arith) (omega arith) (omega arith) refl (omega arith) refl
