-- ===== src/Runtime/Materialization/Slots.antt =====
-- The slots of a materialized frame (src/runtime/materialization.cpp).
use uni_jit.Common.{
  ℕ, ◌≡◌, true, false, none, List, [], ◌∷◌, ◌++◌, map, All, All-map, Distinct, contains, arith,
}
use uni_jit.Runtime.Deoptimization.{RecoveredValue, ReconstructedFrame}
use uni_jit.Runtime.Materialization.{ObjectRecipe, MaterializationPlan}
use uni_jit.Runtime.Materialization.Build.{
  MaterializedValue, kept, installed, output, recovered_slots, check_values, check_inputs,
  check_recipes, checked_frame,
}
use uni_jit.Runtime.Materialization.Sources.{or_else-none}

-- The slots of the values are new to a set, and to it with the slots before them.
abbrev Apart : List ℕ → List MaterializedValue → Type 0
Apart slots [] = Unit
Apart slots (v ∷ vs) = (contains v.slot slots ≡ false) × Apart (v.slot ∷ slots) vs

Apart-All :
    (slots : List ℕ) (vs : List MaterializedValue)
    → Apart slots vs
    → All (λ v. contains v.slot slots ≡ false) vs
Apart-All slots [] h = _
Apart-All slots (v ∷ vs) h =
    (h.0, All-map (λ w k. ground (arith, k)) vs (Apart-All (v.slot ∷ slots) vs h.1))

Apart-Distinct :
    (slots : List ℕ) (vs : List MaterializedValue)
    → Apart slots vs
    → Distinct (λ (v : MaterializedValue). v.slot) vs
Apart-Distinct slots [] h = _
Apart-Distinct slots (v ∷ vs) h = (
  All-map (λ w k same. ground (arith, k, same)) vs (Apart-All (v.slot ∷ slots) vs h.1),
  Apart-Distinct (v.slot ∷ slots) vs h.1,
)

check_values-Apart :
    (slots : List ℕ) (values : List RecoveredValue) (rest : List MaterializedValue)
    → check_values slots values ≡ none
    → Apart (recovered_slots slots values) rest
    → Apart slots (map kept values ++ rest)
unfolding check_values
check_values-Apart slots [] rest checked h = h
check_values-Apart slots (v ∷ values) rest checked h = (
  ground (arith, checked),
  check_values-Apart (v.slot ∷ slots) values rest (ground (arith, checked)) h,
)

check_recipes-Apart :
    (frame : ReconstructedFrame) (slots : List ℕ) (recipes : List ObjectRecipe) (handles : List ℕ)
    → check_recipes frame slots recipes ≡ none
    → Apart slots (installed recipes handles)
unfolding check_recipes
check_recipes-Apart frame slots [] handles checked = _
check_recipes-Apart frame slots (recipe ∷ recipes) [] checked = _
check_recipes-Apart frame slots (recipe ∷ recipes) (handle ∷ handles) checked =
    let next = check_recipes frame (recipe.destination_slot ∷ slots) recipes in
    let (inputs, later) =
      or_else-none (check_inputs frame recipe.fields) next (ground (arith, checked)) in
    (
      ground (arith, checked),
      check_recipes-Apart frame (recipe.destination_slot ∷ slots) recipes handles later,
    )

-- The frame that is given back after the checks has no slot twice, among the recovered values and the
-- materialized objects together.
pub output-Distinct :
    (frame : ReconstructedFrame) (plan : MaterializationPlan) (handles : List ℕ)
    → checked_frame true frame plan ≡ none
    → Distinct (λ (v : MaterializedValue). v.slot) (output frame plan.recipes handles).values
output-Distinct frame plan handles checked =
    let (values, recipes) =
      or_else-none (check_values [] frame.values)
        (check_recipes frame (recovered_slots [] frame.values) plan.recipes) checked in
    Apart-Distinct [] (output frame plan.recipes handles).values (
      check_values-Apart [] frame.values (installed plan.recipes handles) values
        (check_recipes-Apart frame (recovered_slots [] frame.values) plan.recipes handles recipes))
