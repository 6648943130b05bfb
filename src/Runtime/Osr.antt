-- ===== src/Runtime/Osr.antt =====
-- include/unijit/runtime/on_stack_replacement.h and src/runtime/on_stack_replacement.cpp: how the
-- values of an interpreter frame become the arguments of compiled code. `allocated` says whether
-- memory is found.
pub mod Transfer
use uni_jit.Common.{
  ℕ, zero, suc, ◌+◌, Bool, true, false, not, ◌||◌, Option, none, some, List, [], ◌∷◌, ◌++◌, length,
  find_if, ◌==◌, if◌then◌else◌,
}
use uni_jit.Status.{StatusCode, Status, status, ok_status, is_ok}
use uni_jit.Ir.Opcode.{ValueType, same_type}
use uni_jit.Runtime.Deoptimization.{valid_value_type}

pub record OsrValue : Type 0 where
  pub slot : ℕ
  pub type : ValueType
  pub value : ℕ

pub record OsrFrame : Type 0 where
  pub entry_site : ℕ
  pub resume_offset : ℕ
  pub values : List OsrValue

pub record OsrBinding : Type 0 where
  pub slot : ℕ
  pub type : ValueType

pub record OsrEntryPlan : Type 0 where
  pub entry_site : ℕ
  pub resume_offset : ℕ
  pub bindings : List OsrBinding

-- `values` are those written so far; the others of the array are 0.
pub record OsrArguments : Type 0 where
  pub status : Status
  pub entry_site : ℕ
  pub resume_offset : ℕ
  pub count : ℕ
  pub values : List ℕ

abbrev pub maximum_values : ℕ
maximum_values = 64

abbrev pub new_frame : ℕ → ℕ → OsrFrame
new_frame entry_site resume_offset = record {
  entry_site = entry_site;
  resume_offset = resume_offset;
  values = [];
}

abbrev pub new_plan : ℕ → ℕ → OsrEntryPlan
new_plan entry_site resume_offset = record {
  entry_site = entry_site;
  resume_offset = resume_offset;
  bindings = [];
}

unfoldable pub find_slot : ℕ → OsrFrame → Option OsrValue
find_slot slot frame = find_if (λ item. item.slot == slot) frame.values

-- Whether something was found.
abbrev pub is_found {ℓ} : {A : Type ℓ} → Option A → Bool
is_found none = false
is_found (some x) = true

unfoldable pub add_value : Bool → ℕ → ValueType → ℕ → OsrFrame → OsrFrame × Status
add_value allocated slot type value frame =
    if not (valid_value_type type)
    then (frame, status StatusCode.invalid_argument slot)
    else if length frame.values == maximum_values
    then (frame, status StatusCode.resource_exhausted slot)
    else if is_found (find_slot slot frame)
    then (frame, status StatusCode.invalid_argument slot)
    else if allocated
    then (
      record frame {
        values = frame.values ++ record { slot = slot; type = type; value = value } ∷ [];
      },
      ok_status,
    )
    else (frame, status StatusCode.resource_exhausted slot)

unfoldable pub find_binding : ℕ → OsrEntryPlan → Option OsrBinding
find_binding slot plan = find_if (λ binding. binding.slot == slot) plan.bindings

unfoldable pub add_argument : Bool → ℕ → ValueType → OsrEntryPlan → OsrEntryPlan × Status
add_argument allocated slot type plan =
    if not (valid_value_type type)
    then (plan, status StatusCode.invalid_argument slot)
    else if length plan.bindings == maximum_values
    then (plan, status StatusCode.resource_exhausted slot)
    else if is_found (find_binding slot plan)
    then (plan, status StatusCode.invalid_argument slot)
    else if allocated
    then (
      record plan { bindings = plan.bindings ++ record { slot = slot; type = type } ∷ [] },
      ok_status,
    )
    else (plan, status StatusCode.resource_exhausted slot)

-- What a turn of the loop reads from the frame, where the type is the binding's.
abbrev pub value_of : ValueType → Option OsrValue → Option ℕ
value_of type none = none
value_of type (some value) = if same_type value.type type then some value.value else none

abbrev pub written : ℕ → List ℕ × Status → List ℕ × Status
written value (values, s) = (value ∷ values, s)

-- A turn that reads, with the turns that follow.
abbrev pub turn : ℕ → Option ℕ → List ℕ × Status → List ℕ × Status
turn slot none rest = ([], status StatusCode.invalid_argument slot)
turn slot (some value) rest = written value rest

-- The loop of marshal: what it writes, and how it ends. The lists are of one length.
unfoldable pub marshal_loop : OsrFrame → List OsrBinding → List ValueType → List ℕ × Status
marshal_loop frame [] types = ([], ok_status)
marshal_loop frame (binding ∷ bindings) [] = ([], status StatusCode.invalid_argument binding.slot)
marshal_loop frame (binding ∷ bindings) (type ∷ types) =
    let rest = marshal_loop frame bindings types in
    if not (same_type type binding.type)
    then ([], status StatusCode.invalid_argument binding.slot)
    else turn binding.slot (value_of binding.type (find_slot binding.slot frame)) rest

-- After the loop.
abbrev pub arguments_of : OsrEntryPlan → List ℕ × Status → OsrArguments
arguments_of plan (values, s) = record {
  status = s;
  entry_site = plan.entry_site;
  resume_offset = plan.resume_offset;
  count = if is_ok s then length plan.bindings else 0;
  values = values;
}

unfoldable pub marshal : OsrFrame → List ValueType → OsrEntryPlan → OsrArguments
marshal frame parameter_types plan =
    if not (frame.entry_site == plan.entry_site) || not (frame.resume_offset == plan.resume_offset)
    then arguments_of plan ([], status StatusCode.invalid_argument frame.entry_site)
    else if not (length parameter_types == length plan.bindings)
    then arguments_of plan ([], status StatusCode.invalid_argument plan.entry_site)
    else arguments_of plan (marshal_loop frame plan.bindings parameter_types)
