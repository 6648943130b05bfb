-- ===== src/Tests/Objects.antt =====
-- Materialization (src/runtime/materialization.cpp): two objects that refer to each other.
use uni_jit.Common.{ℕ, ◌+◌, refl, true, [], ◌∷◌, All, Distinct}
use uni_jit.Status.{ok_status}
use uni_jit.Ir.Opcode.{ValueType}
use uni_jit.Runtime.Deoptimization.{DeoptimizationReason, ReconstructedFrame, find_value}
use uni_jit.Runtime.Materialization.{
  MaterializationSource, MaterializationInput, ObjectRecipe, MaterializationPlan, new_plan,
  add_recipe, fields_fit, check_fields, validate, validate_recipes, validate_references,
  validate_graph,
}
use uni_jit.Runtime.Materialization.Build.{
  MaterializationCallbacks, MaterializedValue, check_values, check_inputs, check_recipes, output,
}
use uni_jit.Runtime.Materialization.Sources.{Supplied, checked-Supplied}
use uni_jit.Runtime.Materialization.Slots.{output-Distinct}

-- A host that counts its calls and hands out the counts as handles.
abbrev counting : MaterializationCallbacks ℕ
counting = record {
  begin = λ reason site resume_offset objects values w. (w + 1, ok_status);
  allocate = λ id kind fields w. (w + 1, ok_status, w);
  store_primitive = λ object index type value w. (w + 1, ok_status);
  store_object = λ object index value w. (w + 1, ok_status);
  store_frame_primitive = λ slot type value w. (w + 1, ok_status);
  store_frame_object = λ slot value w. (w + 1, ok_status);
  commit = λ w. (w + 1, ok_status);
  rollback = λ w. 0;
}

abbrev rebuilt : ReconstructedFrame
rebuilt = record {
  reason = DeoptimizationReason.guard_failed;
  site = 10;
  resume_offset = 4;
  values = record { slot = 0; type = ValueType.word; value = 5 } ∷ [];
}

abbrev link : ℕ → MaterializationInput
link id = record {
  source = MaterializationSource.object;
  type = ValueType.word;
  recovered_slot = 0;
  constant = 0;
  object_id = id;
}

abbrev recovered_word : MaterializationInput
recovered_word = record {
  source = MaterializationSource.recovered_slot;
  type = ValueType.word;
  recovered_slot = 0;
  constant = 0;
  object_id = 0;
}

abbrev first_object : ObjectRecipe
first_object = record {
  id = 1;
  destination_slot = 7;
  kind = 100;
  fields = link 2 ∷ recovered_word ∷ [];
}

abbrev second_object : ObjectRecipe
second_object = record { id = 2; destination_slot = 8; kind = 100; fields = link 1 ∷ [] }

abbrev linked : MaterializationPlan
linked = (add_recipe true second_object (add_recipe true first_object (new_plan 10 4)).0).0

supplied_example :
    All
      (λ recipe.
        All
          (λ input. Supplied rebuilt linked.recipes (20 ∷ 21 ∷ []) input input.source)
          recipe.fields)
      linked.recipes
unfolding add_recipe fields_fit check_fields validate validate_recipes validate_references
    validate_graph check_values check_inputs check_recipes find_value
supplied_example = checked-Supplied rebuilt linked (20 ∷ 21 ∷ []) refl refl refl

slots_example :
    Distinct
      (λ (v : MaterializedValue). v.slot)
      (output rebuilt linked.recipes (20 ∷ 21 ∷ [])).values
unfolding add_recipe fields_fit check_fields check_values check_inputs check_recipes find_value
slots_example = output-Distinct rebuilt linked (20 ∷ 21 ∷ []) refl
