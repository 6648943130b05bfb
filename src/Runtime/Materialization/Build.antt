-- ===== src/Runtime/Materialization/Build.antt =====
-- materialize_frame (src/runtime/materialization.cpp). The host's state is a world; `host` is none where
-- a callback is null.
use uni_jit.Common.{
  ℕ, ◌+◌, Bool, false, not, ◌||◌, Option, none, some, List, [], ◌∷◌, ◌++◌, map, length, ◌==◌,
  if◌then◌else◌, contains,
}
use uni_jit.Status.{StatusCode, Status, status, ok_status, is_ok, Result, success, failure}
use uni_jit.Ir.Opcode.{ValueType, same_type}
use uni_jit.Runtime.Deoptimization.{
  DeoptimizationReason, RecoveredValue, ReconstructedFrame, valid_value_type, find_value,
}
use uni_jit.Runtime.Materialization.{
  MaterializationSource, MaterializationInput, ObjectRecipe, MaterializationPlan, is_recovered,
  or_else, validate,
}

-- A call that may fail. `allocate` gives the handle too.
pub record MaterializationCallbacks (World : Type 0) : Type 0 where
  pub begin : DeoptimizationReason → ℕ → ℕ → ℕ → ℕ → World → World × Status
  pub allocate : ℕ → ℕ → ℕ → World → World × Status × ℕ
  pub store_primitive : ℕ → ℕ → ValueType → ℕ → World → World × Status
  pub store_object : ℕ → ℕ → ℕ → World → World × Status
  pub store_frame_primitive : ℕ → ValueType → ℕ → World → World × Status
  pub store_frame_object : ℕ → ℕ → World → World × Status
  pub commit : World → World × Status
  pub rollback : World → World

pub data MaterializedValueKind : Type 0 where
  word float64 object : MaterializedValueKind

pub record MaterializedValue : Type 0 where
  pub slot : ℕ
  pub kind : MaterializedValueKind
  pub value : ℕ
  pub object : ℕ

pub record MaterializedFrame : Type 0 where
  pub reason : DeoptimizationReason
  pub site : ℕ
  pub resume_offset : ℕ
  pub values : List MaterializedValue

abbrev pub kind_of : ValueType → MaterializedValueKind
kind_of ValueType.float64 = MaterializedValueKind.float64
kind_of _ = MaterializedValueKind.word

abbrev pub kept : RecoveredValue → MaterializedValue
kept value = record {
  slot = value.slot;
  kind = kind_of value.type;
  value = value.value;
  object = 0;
}

abbrev pub recovered_slots : List ℕ → List RecoveredValue → List ℕ
recovered_slots slots [] = slots
recovered_slots slots (value ∷ values) = recovered_slots (value.slot ∷ slots) values

-- The loop over the recovered values; `slots` is the set so far.
unfoldable pub check_values : List ℕ → List RecoveredValue → Option Status
check_values slots [] = none
check_values slots (value ∷ values) =
    let rest = check_values (value.slot ∷ slots) values in
    if not (valid_value_type value.type) || contains value.slot slots
    then some (status StatusCode.invalid_argument value.slot)
    else rest

abbrev pub is_available : ValueType → Option RecoveredValue → Bool
is_available type none = false
is_available type (some recovered) = same_type recovered.type type

unfoldable pub check_inputs : ReconstructedFrame → List MaterializationInput → Option Status
check_inputs frame [] = none
check_inputs frame (input ∷ fields) =
    let rest = check_inputs frame fields in
    if not (is_recovered input.source)
    then rest
    else if is_available input.type (find_value input.recovered_slot frame)
    then rest
    else some (status StatusCode.invalid_argument input.recovered_slot)

-- The loop over the recipes.
unfoldable pub check_recipes : ReconstructedFrame → List ℕ → List ObjectRecipe → Option Status
check_recipes frame slots [] = none
check_recipes frame slots (recipe ∷ recipes) =
    let rest = check_recipes frame (recipe.destination_slot ∷ slots) recipes in
    if contains recipe.destination_slot slots
    then some (status StatusCode.invalid_argument recipe.destination_slot)
    else or_else (check_inputs frame recipe.fields) rest

-- object_indices.find: the handle at the index of the recipe of that id.
abbrev pub handle_of_id : ℕ → List ObjectRecipe → List ℕ → Option ℕ
handle_of_id id [] handles = none
handle_of_id id (recipe ∷ recipes) [] = none
handle_of_id id (recipe ∷ recipes) (handle ∷ handles) =
    if recipe.id == id then some handle else handle_of_id id recipes handles

abbrev pub value_or_zero : Option RecoveredValue → ℕ
value_or_zero none = 0
value_or_zero (some recovered) = recovered.value

abbrev pub or_zero : Option ℕ → ℕ
or_zero none = 0
or_zero (some handle) = handle

abbrev pub installed : List ObjectRecipe → List ℕ → List MaterializedValue
installed (recipe ∷ recipes) (handle ∷ handles) =
    record {
      slot = recipe.destination_slot;
      kind = MaterializedValueKind.object;
      value = 0;
      object = handle;
    }
    ∷ installed recipes handles
installed _ _ = []

abbrev pub output : ReconstructedFrame → List ObjectRecipe → List ℕ → MaterializedFrame
output frame recipes handles = record {
  reason = frame.reason;
  site = frame.site;
  resume_offset = frame.resume_offset;
  values = map kept frame.values ++ installed recipes handles;
}

-- What is checked once the host is known to be complete.
abbrev pub checked_frame : Bool → ReconstructedFrame → MaterializationPlan → Option Status
checked_frame allocated frame plan =
    if allocated
    then or_else (check_values [] frame.values)
        (check_recipes frame (recovered_slots [] frame.values) plan.recipes)
    else some (status StatusCode.resource_exhausted 0)

module _ {World : Type 0} where
  -- A call after one that succeeded.
  abbrev pub continue : World × Status → (World → World × Status) → World × Status
  continue (world, s) next = if is_ok s then next world else (world, s)

  -- Calls in order, until one fails.
  abbrev pub perform : List (World → World × Status) → World → World × Status
  perform [] world = (world, ok_status)
  perform (call ∷ calls) world = continue (call world) (perform calls)

  module _ (host : MaterializationCallbacks World) where
    abbrev pub consed : ℕ → World × Result (List ℕ) → World × Result (List ℕ)
    consed handle (world, success handles) = (world, success (handle ∷ handles))
    consed handle (world, failure s) = (world, failure s)

    abbrev pub after_allocation :
        World × Status × ℕ → (World → World × Result (List ℕ)) → World × Result (List ℕ)
    after_allocation (world, s, handle) next =
        if is_ok s then consed handle (next world) else (world, failure s)

    unfoldable pub allocate_all : List ObjectRecipe → World → World × Result (List ℕ)
    allocate_all [] world = (world, success [])
    allocate_all (recipe ∷ recipes) world =
        after_allocation (host.allocate recipe.id recipe.kind (length recipe.fields) world)
          (allocate_all recipes)

    module _ (frame : ReconstructedFrame) (all : List ObjectRecipe) (handles : List ℕ) where
      -- The store of a field, by its source.
      abbrev pub store_field :
          MaterializationSource → ℕ → ℕ → MaterializationInput → World → World × Status
      store_field MaterializationSource.object handle field_index input =
          host.store_object handle field_index (or_zero (handle_of_id input.object_id all handles))
      store_field MaterializationSource.constant handle field_index input =
          host.store_primitive handle field_index input.type input.constant
      store_field MaterializationSource.recovered_slot handle field_index input =
          host.store_primitive handle field_index input.type
            (value_or_zero (find_value input.recovered_slot frame))

      abbrev pub field_stores : ℕ → ℕ → List MaterializationInput → List (World → World × Status)
      field_stores handle field_index [] = []
      field_stores handle field_index (input ∷ fields) =
          store_field input.source handle field_index input
          ∷ field_stores handle (field_index + 1) fields

      abbrev pub object_stores : List ObjectRecipe → List ℕ → List (World → World × Status)
      object_stores (recipe ∷ recipes) (handle ∷ rest) =
          field_stores handle 0 recipe.fields ++ object_stores recipes rest
      object_stores _ _ = []

    -- The store of a value in the frame, by its kind.
    abbrev pub install : MaterializedValueKind → MaterializedValue → World → World × Status
    install MaterializedValueKind.object value = host.store_frame_object value.slot value.object
    install MaterializedValueKind.float64 value =
        host.store_frame_primitive value.slot ValueType.float64 value.value
    install MaterializedValueKind.word value =
        host.store_frame_primitive value.slot ValueType.word value.value

    abbrev pub installs : List MaterializedValue → List (World → World × Status)
    installs [] = []
    installs (value ∷ values) = install value.kind value ∷ installs values

    -- The calls that follow the allocations.
    abbrev pub calls_of :
        ReconstructedFrame → List ObjectRecipe → List ℕ → List (World → World × Status)
    calls_of frame recipes handles =
        (object_stores frame recipes handles recipes handles
          ++ installs (output frame recipes handles).values)
        ++ host.commit ∷ []

    abbrev pub failed : World → Status → World × Result MaterializedFrame
    failed world s = (host.rollback world, failure s)

    abbrev pub finish : MaterializedFrame → World × Status → World × Result MaterializedFrame
    finish result (world, s) = if is_ok s then (world, success result) else failed world s

    abbrev pub after_allocations :
        ReconstructedFrame
        → List ObjectRecipe
        → World × Result (List ℕ)
        → World × Result MaterializedFrame
    after_allocations frame recipes (world, failure s) = failed world s
    after_allocations frame recipes (world, success handles) =
        finish (output frame recipes handles) (perform (calls_of frame recipes handles) world)

    abbrev pub after_begin :
        ReconstructedFrame → List ObjectRecipe → World × Status → World × Result MaterializedFrame
    after_begin frame recipes (world, s) =
        if is_ok s
        then after_allocations frame recipes (allocate_all recipes world)
        else failed world s

    unfoldable pub transact :
        ReconstructedFrame → List ObjectRecipe → World → World × Result MaterializedFrame
    transact frame recipes world = after_begin frame recipes (
        host.begin frame.reason frame.site frame.resume_offset (length recipes)
          (length frame.values + length recipes) world)

  abbrev pub unless_refused :
      Option Status → World → World × Result MaterializedFrame → World × Result MaterializedFrame
  unless_refused none world result = result
  unless_refused (some refusal) world result = (world, failure refusal)

  abbrev pub with_host :
      Bool
      → ReconstructedFrame
      → MaterializationPlan
      → Option (MaterializationCallbacks World)
      → World
      → World × Result MaterializedFrame
  with_host allocated frame plan none world =
      (world, failure (status StatusCode.invalid_argument 0))
  with_host allocated frame plan (some host) world =
      unless_refused (checked_frame allocated frame plan) world
        (transact host frame plan.recipes world)

  -- `validated` and `allocated` say whether validation and the rest find memory.
  unfoldable pub materialize_frame :
      Bool
      → Bool
      → ReconstructedFrame
      → MaterializationPlan
      → Option (MaterializationCallbacks World)
      → World
      → World × Result MaterializedFrame
  materialize_frame validated allocated frame plan host world =
      if not (plan.site == frame.site) || not (plan.resume_offset == frame.resume_offset)
      then (world, failure (status StatusCode.invalid_argument frame.site))
      else unless_refused (validate validated plan) world
          (with_host allocated frame plan host world)
