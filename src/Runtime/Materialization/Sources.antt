-- ===== src/Runtime/Materialization/Sources.antt =====
-- Where the fields of materialized objects come from (src/runtime/materialization.cpp).
use uni_jit.Common.{
  ℕ, ◌≡◌, refl, inl, inr, true, false, not, ◌&&◌, Option, none, some, List, [], ◌∷◌, length, All,
  Bool-cases, arith, ◌==◌,
}
use uni_jit.Status.{Status}
use uni_jit.Ir.Opcode.{ValueType, same_type→eq}
use uni_jit.Runtime.Deoptimization.{RecoveredValue, ReconstructedFrame, find_value}
use uni_jit.Runtime.Materialization.{
  MaterializationSource, MaterializationInput, ObjectRecipe, MaterializationPlan, is_object,
  is_recovered, has_id, or_else, validate_recipes, validate_references, validate_graph, validate,
}
use uni_jit.Runtime.Materialization.Build.{
  check_inputs, check_recipes, check_values, recovered_slots, is_available, checked_frame,
  handle_of_id,
}

pub or_else-none : (a b : Option Status) → or_else a b ≡ none → (a ≡ none) × (b ≡ none)
or_else-none none b h = (refl, h)
or_else-none (some s) b h = absurd (ground (arith, h))

-- An object field has the handle of an object of the plan; a recovered field has a value of its type in
-- the frame.
abbrev pub Supplied :
    ReconstructedFrame
    → List ObjectRecipe
    → List ℕ
    → MaterializationInput
    → MaterializationSource
    → Type 0
Supplied frame recipes handles input MaterializationSource.object =
    (handle : ℕ) × (handle_of_id input.object_id recipes handles ≡ some handle)
Supplied frame recipes handles input MaterializationSource.recovered_slot =
    (v : RecoveredValue) × (find_value input.recovered_slot frame ≡ some v) × (v.type ≡ input.type)
Supplied frame recipes handles input MaterializationSource.constant = Unit

has_id-handle :
    (id : ℕ) (recipes : List ObjectRecipe) (handles : List ℕ)
    → has_id id recipes ≡ true
    → length handles ≡ length recipes
    → (handle : ℕ) × (handle_of_id id recipes handles ≡ some handle)
has_id-handle id [] handles has sized = absurd (ground (arith, has))
has_id-handle id (recipe ∷ recipes) [] has sized = absurd (omega (arith, sized))
has_id-handle id (recipe ∷ recipes) (handle ∷ handles) has sized =
    elim (Bool-cases (recipe.id == id)) [
      | inl here ↦ (handle, ground (arith, here))
      | inr not_here ↦
          let (found, at) =
            has_id-handle id recipes handles (ground (arith, has, not_here))
              (omega (arith, sized)) in
          (found, ground (arith, at, not_here))
    ]

available-value :
    (type : ValueType) (o : Option RecoveredValue)
    → is_available type o ≡ true
    → (v : RecoveredValue) × (o ≡ some v) × (v.type ≡ type)
available-value type none h = absurd (ground (arith, h))
available-value type (some v) h = (v, refl, same_type→eq v.type type h)

module _ (frame : ReconstructedFrame) (all : List ObjectRecipe) (handles : List ℕ) where
  supplied :
      (input : MaterializationInput) (source : MaterializationSource)
      → (is_object source && not (has_id input.object_id all)) ≡ false
      → (is_recovered source ≡ true
          → is_available input.type (find_value input.recovered_slot frame) ≡ true)
      → length handles ≡ length all
      → Supplied frame all handles input source
  supplied input MaterializationSource.object known available sized =
      has_id-handle input.object_id all handles (ground (arith, known)) sized
  supplied input MaterializationSource.recovered_slot known available sized =
      available-value input.type (find_value input.recovered_slot frame) (available refl)
  supplied input MaterializationSource.constant known available sized = _

  fields-Supplied :
      (fields : List MaterializationInput)
      → validate_references all fields ≡ none
      → check_inputs frame fields ≡ none
      → length handles ≡ length all
      → All (λ input. Supplied frame all handles input input.source) fields
  unfolding validate_references check_inputs
  fields-Supplied [] known available sized = _
  fields-Supplied (input ∷ fields) known available sized = (
    supplied input input.source (ground (arith, known))
        (λ recovered. ground (arith, available, recovered)) sized,
    fields-Supplied fields (ground (arith, known)) (ground (arith, available)) sized,
  )

  recipes-Supplied :
      (slots : List ℕ) (recipes : List ObjectRecipe)
      → validate_graph all recipes ≡ none
      → check_recipes frame slots recipes ≡ none
      → length handles ≡ length all
      → All
          (λ recipe. All (λ input. Supplied frame all handles input input.source) recipe.fields)
          recipes
  unfolding validate_graph check_recipes
  recipes-Supplied slots [] known available sized = _
  recipes-Supplied slots (recipe ∷ recipes) known available sized =
      let (here, later) =
        or_else-none (validate_references all recipe.fields) (validate_graph all recipes) known in
      let (inputs, rest) =
        or_else-none (check_inputs frame recipe.fields)
          (check_recipes frame (recipe.destination_slot ∷ slots) recipes)
          (ground (arith, available)) in
      (
        fields-Supplied recipe.fields here inputs sized,
        recipes-Supplied (recipe.destination_slot ∷ slots) recipes later rest sized,
      )

-- When a plan and a frame pass the checks that come before the host is called, and each recipe has a
-- handle, every object field has the handle of an object of the plan, and every recovered field has a
-- value of its type in the frame: the two look-ups that the code does not check again find something.
pub checked-Supplied :
    (frame : ReconstructedFrame) (plan : MaterializationPlan) (handles : List ℕ)
    → validate true plan ≡ none
    → checked_frame true frame plan ≡ none
    → length handles ≡ length plan.recipes
    → All
        (λ recipe.
          All (λ input. Supplied frame plan.recipes handles input input.source) recipe.fields)
        plan.recipes
unfolding validate
checked-Supplied frame plan handles valid checked sized =
    recipes-Supplied frame plan.recipes handles (recovered_slots [] frame.values) plan.recipes
      (or_else-none (validate_recipes [] [] 0 plan.recipes)
        (validate_graph plan.recipes plan.recipes) valid).1
      (or_else-none (check_values [] frame.values)
        (check_recipes frame (recovered_slots [] frame.values) plan.recipes) checked).1
      sized
