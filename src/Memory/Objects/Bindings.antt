-- ===== src/Memory/Objects/Bindings.antt =====
-- Fields of objects whose bindings were validated (src/ir/object_access.cpp).
use mathlib.Core.Path.{subst}
use native.Mathlib.Nat.{add-zero, zero-add, mod-eq_of_lt}
use uni_jit.Common.{
  ℕ, zero, suc, ◌+◌, ◌-◌, ◌%◌, ◌^◌, ◌≤◌, ◌<◌, ap, sym, ◌∙◌, ◌≡◌, bit_and, inl, inr, Bool, true,
  false, Option, none, some, List, [], ◌∷◌, arith, length, get_elem?, Option-cases,
}
use uni_jit.Common.Masks.{and-mask}
use uni_jit.Status.{Status, ok_status, success}
use uni_jit.Memory.Loops.{Memory, load_loop, store_loop}
use uni_jit.Memory.Bytes.{HoldsBytes}
use uni_jit.Memory.RoundTrip.{load_loop-store_loop, some_injective}
use uni_jit.Memory.Objects.{
  TrustedObject, TrustedObjectDescriptor, ObjectContext, check_binding, check_bindings, check_bound,
  validate_trusted_object_bindings, check_field, resolve_field, load_field, store_field,
  load_trusted_object, store_trusted_object,
}

bit_and_seven : (x : ℕ) → bit_and x 7 ≡ x % 8
bit_and_seven x = and-mask 3 x

-- An object that fits the layout that it is bound to.
record Fits (d : TrustedObjectDescriptor) (w : Bool) (object : TrustedObject) : Type 0 where
  pub same : object.layout_identity ≡ d.layout_identity
  pub room : d.byte_size ≤ object.size
  pub aligned : object.address % 8 ≡ 0
  pub writable : w ≡ true → object.writable ≡ true

check_binding-Fits :
    (d : TrustedObjectDescriptor) (w : Bool) (object : TrustedObject) (index : ℕ) (rest : Status)
    → check_binding d w object index rest ≡ ok_status
    → Fits d w object × (rest ≡ ok_status)
unfolding check_binding
check_binding-Fits d w object index rest h =
    let seven = bit_and_seven object.address in ground arith

check_bindings-Fits :
    (objects : ℕ → TrustedObject) (index : ℕ) (ds : List TrustedObjectDescriptor) (ws : List Bool)
    → check_bindings objects index ds ws ≡ ok_status
    → (i : ℕ) (d : TrustedObjectDescriptor) (w : Bool) → get_elem? ds i ≡ some d
    → get_elem? ws i ≡ some w
    → Fits d w (objects (index + i))
unfolding check_bindings
check_bindings-Fits objects index [] ws h i d w p q = absurd (ground arith)
check_bindings-Fits objects index (d' ∷ ds) [] h i d w p q = absurd (ground arith)
check_bindings-Fits objects index (d' ∷ ds) (w' ∷ ws) h zero d w p q =
    let (fits, rest) =
      check_binding-Fits d' w' (objects index) index (check_bindings objects (index + 1) ds ws) h in
    rw (sym (some_injective p), sym (some_injective q), add-zero index) fits
check_bindings-Fits objects index (d' ∷ ds) (w' ∷ ws) h (suc i) d w p q =
    let (fits, rest) =
      check_binding-Fits d' w' (objects index) index (check_bindings objects (index + 1) ds ws) h in
    let place : index + suc i ≡ index + 1 + i = omega arith in
    rw place (check_bindings-Fits objects (index + 1) ds ws rest i d w p q)

get_elem?-some {ℓ} :
    {A : Type ℓ} (xs : List A) (i : ℕ) (x : A) → get_elem? xs i ≡ some x → i < length xs
get_elem?-some [] i x e = absurd (ground arith)
get_elem?-some (y ∷ xs) zero x e = omega arith
get_elem?-some (y ∷ xs) (suc i) x e = omega (arith, get_elem?-some xs i x e)

resolve_field_succeeds :
    (id byte_offset : ℕ) (store : Bool) (c : ObjectContext) (objects : ℕ → TrustedObject)
    → c.trusted_objects ≡ some objects
    → id < 2 ^ 32 - 1
    → id < c.trusted_object_count
    → (store ≡ true → (objects id).writable ≡ true)
    → byte_offset + 8 ≤ (objects id).size
    → bit_and ((objects id).address + byte_offset) 7 ≡ 0
    → resolve_field id byte_offset store (some c) ≡ success ((objects id).address + byte_offset)
unfolding resolve_field check_field
resolve_field_succeeds id byte_offset store c objects e slot listed writes inside aligned =
    ground arith

validate_bound :
    (ds : List TrustedObjectDescriptor) (ws : List Bool) (context : Option ObjectContext)
    → validate_trusted_object_bindings ds ws context ≡ ok_status
    → 0 < length ds
    → check_bound ds ws context ≡ ok_status
unfolding validate_trusted_object_bindings
validate_bound ds ws context h some_listed = ground arith

check_bound-bindings :
    (ds : List TrustedObjectDescriptor) (ws : List Bool) (c : ObjectContext)
    → check_bound ds ws (some c) ≡ ok_status
    → (objects : (ℕ → TrustedObject)) × (c.trusted_objects ≡ some objects)
      × (length ds ≤ c.trusted_object_count)
      × (check_bindings objects 0 ds ws ≡ ok_status)
check_bound-bindings ds ws c h = elim (Option-cases c.trusted_objects) [
  | inl e ↦ absurd (unbound e)
  | inr (objects, e) ↦ let checked = bound objects e in (objects, e, checked.0, checked.1)
]
  where
    unbound : c.trusted_objects ≡ none → ⊥
    unbound e = unfold check_bound in ground arith

    bound :
        (objects : (ℕ → TrustedObject))
        → c.trusted_objects ≡ some objects
        → (length ds ≤ c.trusted_object_count) × (check_bindings objects 0 ds ws ≡ ok_status)
    bound objects e = unfold check_bound in ground arith

module _ (ds : List TrustedObjectDescriptor) (ws : List Bool) (c : ObjectContext)
    (valid : validate_trusted_object_bindings ds ws (some c) ≡ ok_status) (id : ℕ)
    (d : TrustedObjectDescriptor) (w : Bool) (described : get_elem? ds id ≡ some d)
    (accessed : get_elem? ws id ≡ some w) where
  bound_object :
      (objects : (ℕ → TrustedObject)) × (c.trusted_objects ≡ some objects)
      × (id < c.trusted_object_count)
      × Fits d w (objects id)
  bound_object =
      let listed : id < length ds = get_elem?-some ds id d described in
      let (objects, e, enough, checked) =
        check_bound-bindings ds ws c (validate_bound ds ws (some c) valid (omega arith)) in
      let fits = check_bindings-Fits objects 0 ds ws checked id d w described accessed in
      (objects, e, omega arith, subst (λ (i : ℕ). Fits d w (objects i)) (zero-add id) fits)

  -- When the bindings were validated, every aligned field of a layout that is listed resolves to its
  -- place in the bound object, for a store if the layout was said to be written.
  pub resolve_field-validated :
      (byte_offset : ℕ) (store : Bool)
      → id < 2 ^ 32 - 1
      → (store ≡ true → w ≡ true)
      → byte_offset + 8 ≤ d.byte_size
      → byte_offset % 8 ≡ 0
      → (objects : (ℕ → TrustedObject)) × (c.trusted_objects ≡ some objects)
        × (resolve_field id byte_offset store (some c)
            ≡ success ((objects id).address + byte_offset))
  resolve_field-validated byte_offset store slot writes inside aligned =
      let (objects, e, listed, fits) = bound_object in
      let place : ℕ = (objects id).address + byte_offset in
      (
        objects,
        e,
        resolve_field_succeeds id byte_offset store c objects e slot listed
            (λ t. fits.writable (writes t)) (omega (arith, fits.room))
            (omega (arith, bit_and_seven place, fits.aligned)),
      )

  -- When the bindings were validated, a store of a word to an aligned field of a layout that is said
  -- to be written succeeds with that word, and a load of the field then gives it. Memory holds
  -- bytes.
  pub load_trusted_object-store_trusted_object :
      (host : Bool) (memory : Memory) (byte_offset value : ℕ)
      → HoldsBytes memory
      → value < 2 ^ 64
      → id < 2 ^ 32 - 1
      → w ≡ true
      → byte_offset + 8 ≤ d.byte_size
      → byte_offset % 8 ≡ 0
      → (memory' : Memory) × (store_trusted_object host memory id byte_offset value (some c)
          ≡ (memory', success value))
        × (load_trusted_object host memory' id byte_offset (some c) ≡ success value)
  load_trusted_object-store_trusted_object host memory byte_offset value holds small slot writes
        inside aligned =
      let (objects, e, stores) =
        resolve_field-validated byte_offset true slot (λ t. writes) inside aligned in
      let (objects', e', loads) =
        resolve_field-validated byte_offset false slot (λ t. writes) inside aligned in
      let place : ℕ = (objects id).address + byte_offset in
      let one : objects' ≡ objects = some_injective (sym e' ∙ e) in
      let same : (objects' id).address + byte_offset ≡ place =
        ap (λ (f : ℕ → TrustedObject). (f id).address + byte_offset) one in
      let memory' : Memory = store_loop memory place host 8 8 0 value in
      (
        memory',
        unfold store_trusted_object in ap (store_field host memory value) stores,
        unfold load_trusted_object in
            (ap (load_field host memory') loads
              ∙ ap (λ (a : ℕ). success (load_loop memory' a host 8 8 0 0)) same
              ∙ ap success (
                  load_loop-store_loop memory place host 8 value holds (omega arith)
                  ∙ mod-eq_of_lt small)),
      )
