-- ===== src/Runtime/Materialization.antt =====
-- include/unijit/runtime/materialization.h and src/runtime/materialization.cpp: how the objects that
-- optimized code left unallocated are built when a frame is rebuilt. The callbacks are the host's, a
-- parameter. Validation and materialization each may run short of memory before the host is called.
pub mod Sources
pub mod Slots
pub mod Transaction
pub mod Calls
pub mod Outcome
pub mod Build
use uni_jit.Common.{
  ℕ, zero, suc, ◌+◌, ◌-◌, ◌*◌, Bool, true, false, not, ◌&&◌, ◌||◌, Option, none, some, List, [],
  ◌∷◌, ◌++◌, map, length, find_if, ltb, ◌==◌, if◌then◌else◌, contains,
}
use uni_jit.Status.{StatusCode, Status, status, ok_status, is_ok, Result, success, failure}
use uni_jit.Ir.Opcode.{ValueType, same_type}
use uni_jit.Runtime.Deoptimization.{valid_value_type}

pub data MaterializationSource : Type 0 where
  recovered_slot constant object : MaterializationSource

pub record MaterializationInput : Type 0 where
  pub source : MaterializationSource
  pub type : ValueType
  pub recovered_slot : ℕ
  pub constant : ℕ
  pub object_id : ℕ

pub record ObjectRecipe : Type 0 where
  pub id : ℕ
  pub destination_slot : ℕ
  pub kind : ℕ
  pub fields : List MaterializationInput

pub record MaterializationPlan : Type 0 where
  pub site : ℕ
  pub resume_offset : ℕ
  pub recipes : List ObjectRecipe

abbrev pub maximum_objects : ℕ
maximum_objects = 4096

abbrev pub maximum_fields : ℕ
maximum_fields = 256 * 1024

abbrev pub new_plan : ℕ → ℕ → MaterializationPlan
new_plan site resume_offset = record { site = site; resume_offset = resume_offset; recipes = [] }

abbrev pub is_object : MaterializationSource → Bool
is_object MaterializationSource.object = true
is_object _ = false

abbrev pub is_recovered : MaterializationSource → Bool
is_recovered MaterializationSource.recovered_slot = true
is_recovered _ = false

-- A member of the enumeration is one of its constants.
abbrev pub valid_source : MaterializationSource → Bool
valid_source source = true

abbrev pub malformed_input : MaterializationInput → Bool
malformed_input input =
    not (valid_source input.source)
    || not (is_object input.source) && not (valid_value_type input.type)

-- The loop over the fields of a recipe from `index` on; none where it runs to its end.
unfoldable pub check_fields : ℕ → List MaterializationInput → Option Status
check_fields index [] = none
check_fields index (input ∷ fields) =
    let rest = check_fields (index + 1) fields in
    if malformed_input input then some (status StatusCode.invalid_argument index) else rest

abbrev pub has_id : ℕ → List ObjectRecipe → Bool
has_id id [] = false
has_id id (existing ∷ recipes) = existing.id == id || has_id id recipes

abbrev pub has_destination : ℕ → List ObjectRecipe → Bool
has_destination slot [] = false
has_destination slot (existing ∷ recipes) =
    existing.destination_slot == slot || has_destination slot recipes

-- The loop of add over the fields that the plan has; whether they leave room.
unfoldable pub fields_fit : ℕ → List ObjectRecipe → Bool
fields_fit field_count [] = true
fields_fit field_count (existing ∷ recipes) =
    let rest = fields_fit (field_count + length existing.fields) recipes in
    if ltb (maximum_fields - length existing.fields) field_count then false else rest

-- What is pushed where the fields are well formed.
abbrev pub pushed :
    Bool → ObjectRecipe → MaterializationPlan → Option Status → MaterializationPlan × Status
pushed allocated recipe plan (some malformed) = (plan, malformed)
pushed allocated recipe plan none =
    if allocated
    then (record plan { recipes = plan.recipes ++ recipe ∷ [] }, ok_status)
    else (plan, status StatusCode.resource_exhausted recipe.id)

unfoldable pub add_recipe : Bool → ObjectRecipe → MaterializationPlan → MaterializationPlan × Status
add_recipe allocated recipe plan =
    if length plan.recipes == maximum_objects
    then (plan, status StatusCode.resource_exhausted recipe.id)
    else if has_id recipe.id plan.recipes
    then (plan, status StatusCode.invalid_argument recipe.id)
    else if has_destination recipe.destination_slot plan.recipes
    then (plan, status StatusCode.invalid_argument recipe.destination_slot)
    else if ltb maximum_fields (length recipe.fields)
    then (plan, status StatusCode.resource_exhausted recipe.id)
    else if not (fields_fit (length recipe.fields) plan.recipes)
    then (plan, status StatusCode.resource_exhausted recipe.id)
    else pushed allocated recipe plan (check_fields 0 recipe.fields)

-- The first of two checks that stops.
abbrev pub or_else : Option Status → Option Status → Option Status
or_else none next = next
or_else (some stopped) next = some stopped

-- The first loop of validate: `ids` and `destinations` are the sets so far, `fields` the sum.
unfoldable pub validate_recipes : List ℕ → List ℕ → ℕ → List ObjectRecipe → Option Status
validate_recipes ids destinations fields [] = none
validate_recipes ids destinations fields (recipe ∷ recipes) =
    let rest =
      validate_recipes (recipe.id ∷ ids) (recipe.destination_slot ∷ destinations)
        (fields + length recipe.fields) recipes in
    if contains recipe.id ids
    then some (status StatusCode.invalid_argument recipe.id)
    else if contains recipe.destination_slot destinations
    then some (status StatusCode.invalid_argument recipe.destination_slot)
    else if ltb maximum_fields (length recipe.fields)
        || ltb (maximum_fields - length recipe.fields) fields
    then some (status StatusCode.resource_exhausted recipe.id)
    else or_else (check_fields 0 recipe.fields) rest

-- The second loop, over the fields of a recipe and then over the recipes.
unfoldable pub validate_references : List ObjectRecipe → List MaterializationInput → Option Status
validate_references recipes [] = none
validate_references recipes (input ∷ fields) =
    let rest = validate_references recipes fields in
    if is_object input.source && not (has_id input.object_id recipes)
    then some (status StatusCode.invalid_argument input.object_id)
    else rest

unfoldable pub validate_graph : List ObjectRecipe → List ObjectRecipe → Option Status
validate_graph all [] = none
validate_graph all (recipe ∷ recipes) =
    or_else (validate_references all recipe.fields) (validate_graph all recipes)

unfoldable pub validate : Bool → MaterializationPlan → Option Status
validate allocated plan =
    if allocated
    then or_else (validate_recipes [] [] 0 plan.recipes) (validate_graph plan.recipes plan.recipes)
    else some (status StatusCode.resource_exhausted 0)
