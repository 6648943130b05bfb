-- ===== src/Runtime/Deoptimization.antt =====
-- include/unijit/runtime/deoptimization.h and src/runtime/deoptimization.cpp: the table that says
-- how an interpreter frame is rebuilt after an exit. `allocated` says whether memory is found, and
-- the argument pointer is the function from an index to the argument, or null.
pub mod Table
pub mod Frame
pub mod Success
use uni_jit.Common.{
  ℕ, suc, ◌+◌, ◌-◌, ◌^◌, Bool, true, false, not, ◌&&◌, ◌||◌, Option, none, some, List, [], ◌∷◌,
  ◌++◌, length, get_elem?, find_if, leb, ◌==◌, if◌then◌else◌,
}
use uni_jit.Status.{StatusCode, Status, status, ok_status, is_ok, Result, success, failure}
use uni_jit.Ir.Opcode.{ValueType}
use uni_jit.Runtime.Context.{ExitReason, ExecutionContext}

pub data DeoptimizationReason : Type 0 where
  guard_failed division_by_zero type_mismatch assumption_invalidated : DeoptimizationReason

pub data RecoverySource : Type 0 where
  argument constant exit_value captured_value : RecoverySource

-- `source_value` is a value's 32-bit id.
pub record RecoveryOperation : Type 0 where
  pub slot : ℕ
  pub type : ValueType
  pub source : RecoverySource
  pub argument_index : ℕ
  pub constant : ℕ
  pub source_value : ℕ
  pub capture_index : ℕ

pub record DeoptimizationRecord : Type 0 where
  pub site : ℕ
  pub resume_offset : ℕ
  pub reason : DeoptimizationReason
  pub recovery : List RecoveryOperation

pub record RecoveredValue : Type 0 where
  pub slot : ℕ
  pub type : ValueType
  pub value : ℕ

pub record ReconstructedFrame : Type 0 where
  pub reason : DeoptimizationReason
  pub site : ℕ
  pub resume_offset : ℕ
  pub values : List RecoveredValue

abbrev pub DeoptimizationTable : Type 0
DeoptimizationTable = List DeoptimizationRecord

abbrev pub invalid_id : ℕ
invalid_id = 2 ^ 32 - 1

abbrev pub unresolved_capture_index : ℕ
unresolved_capture_index = 2 ^ 64 - 1

abbrev pub is_captured : RecoverySource → Bool
is_captured RecoverySource.captured_value = true
is_captured _ = false

abbrev pub is_argument : RecoverySource → Bool
is_argument RecoverySource.argument = true
is_argument _ = false

abbrev pub valid_value_type : ValueType → Bool
valid_value_type ValueType.word = true
valid_value_type ValueType.float64 = true
valid_value_type _ = false

-- A member of the enumeration is one of its constants.
abbrev pub valid_recovery_source : RecoverySource → Bool
valid_recovery_source source = true

abbrev pub valid_deoptimization_reason : DeoptimizationReason → Bool
valid_deoptimization_reason reason = true

abbrev pub capture_resolved : RecoveryOperation → Bool
capture_resolved operation =
    is_captured operation.source && not (operation.capture_index == unresolved_capture_index)

unfoldable pub find_value : ℕ → ReconstructedFrame → Option RecoveredValue
find_value slot frame = find_if (λ candidate. candidate.slot == slot) frame.values

unfoldable pub find_record : ℕ → DeoptimizationTable → Option DeoptimizationRecord
find_record site records = find_if (λ candidate. candidate.site == site) records

abbrev pub is_malformed : RecoveryOperation → Bool
is_malformed operation =
    not (valid_value_type operation.type)
    || not (valid_recovery_source operation.source)
    || is_captured operation.source && operation.source_value == invalid_id

-- The loop of add over the recovery operations; `checked` is what stands before `index`.
unfoldable pub check_recovery : List RecoveryOperation → List RecoveryOperation → ℕ → Option Status
check_recovery checked [] index = none
check_recovery checked (operation ∷ rest) index =
    let next = check_recovery (checked ++ operation ∷ []) rest (index + 1) in
    if is_malformed operation
    then some (status StatusCode.invalid_argument index)
    else elim (find_if (λ candidate. candidate.slot == operation.slot) checked) [
      | some duplicate ↦ some (status StatusCode.invalid_argument operation.slot)
      | none ↦ next
    ]

unfoldable pub add_record :
    Bool → DeoptimizationRecord → DeoptimizationTable → DeoptimizationTable × Status
add_record allocated record' records =
    if not (valid_deoptimization_reason record'.reason)
    then (records, status StatusCode.invalid_argument record'.site)
    else elim (find_record record'.site records) [
      | some registered ↦ (records, status StatusCode.invalid_argument record'.site)
      | none ↦ elim (check_recovery [] record'.recovery 0) [
        | some refused ↦ (records, refused)
        | none ↦
            if allocated
            then (records ++ record' ∷ [], ok_status)
            else (records, status StatusCode.resource_exhausted record'.site)
      ]
    ]

-- The two loops of validate.
unfoldable pub validate_recovery : ℕ → ℕ → List RecoveryOperation → Status
validate_recovery parameter_count site [] = ok_status
validate_recovery parameter_count site (operation ∷ rest) =
    let next = validate_recovery parameter_count site rest in
    if is_argument operation.source && leb parameter_count operation.argument_index
    then status StatusCode.invalid_argument site
    else next

unfoldable pub validate : ℕ → DeoptimizationTable → Status
validate parameter_count [] = ok_status
validate parameter_count (record' ∷ rest) =
    let here = validate_recovery parameter_count record'.site record'.recovery in
    let next = validate parameter_count rest in if is_ok here then next else here

-- One turn of reconstruct's loop.
unfoldable pub recover_value :
    ℕ → Option (ℕ → ℕ) → ℕ → ExecutionContext → RecoveryOperation → Result ℕ
recover_value site arguments argument_count context operation =
    let refused = failure (status StatusCode.invalid_argument site) in
    elim operation.source [
      | RecoverySource.argument ↦
          if leb argument_count operation.argument_index then refused else elim arguments [
            | none ↦ refused
            | some values ↦ success (values operation.argument_index)
          ]
      | RecoverySource.constant ↦ success operation.constant
      | RecoverySource.exit_value ↦ success context.exit_value
      | RecoverySource.captured_value ↦
          if not (capture_resolved operation)
          then refused
          else elim (get_elem? context.captured_values operation.capture_index) [
            | none ↦ refused
            | some value ↦ success value
          ]
    ]

abbrev pub recovered : RecoveryOperation → ℕ → RecoveredValue
recovered operation value = record { slot = operation.slot; type = operation.type; value = value }

-- The value of one turn, put before those of the turns that follow.
abbrev pub push_value :
    RecoveryOperation → Result ℕ → Result (List RecoveredValue) → Result (List RecoveredValue)
push_value operation (failure s) rest = failure s
push_value operation (success value) (failure s) = failure s
push_value operation (success value) (success values) = success (recovered operation value ∷ values)

unfoldable pub recover_values :
    ℕ
    → Option (ℕ → ℕ)
    → ℕ
    → ExecutionContext
    → List RecoveryOperation
    → Result (List RecoveredValue)
recover_values site arguments argument_count context [] = success []
recover_values site arguments argument_count context (operation ∷ rest) =
    push_value operation (recover_value site arguments argument_count context operation)
      (recover_values site arguments argument_count context rest)

abbrev pub is_runtime : ExitReason → Bool
is_runtime ExitReason.runtime = true
is_runtime _ = false

abbrev pub is_null : Option (ℕ → ℕ) → Bool
is_null none = true
is_null (some values) = false

abbrev pub frame_of :
    DeoptimizationRecord → Result (List RecoveredValue) → Result ReconstructedFrame
frame_of record' (failure s) = failure s
frame_of record' (success values) = success (record {
  reason = record'.reason;
  site = record'.site;
  resume_offset = record'.resume_offset;
  values = values;
})

-- reconstruct once the record of the site is found.
unfoldable pub reconstruct_record :
    Bool
    → ℕ
    → Option (ℕ → ℕ)
    → ℕ
    → ExecutionContext
    → DeoptimizationRecord
    → Result ReconstructedFrame
reconstruct_record allocated site arguments argument_count context record' =
    if not (is_runtime context.exit_reason) || not (context.exit_site == site)
    then failure (status StatusCode.invalid_argument site)
    else if not (argument_count == 0) && is_null arguments
    then failure (status StatusCode.invalid_argument site)
    else if allocated
    then frame_of record' (recover_values site arguments argument_count context record'.recovery)
    else failure (status StatusCode.resource_exhausted site)

unfoldable pub reconstruct :
    Bool
    → ℕ
    → Option (ℕ → ℕ)
    → ℕ
    → ExecutionContext
    → DeoptimizationTable
    → Result ReconstructedFrame
reconstruct allocated site arguments argument_count context records =
    elim (find_record site records) [
      | none ↦ failure (status StatusCode.invalid_argument site)
      | some record' ↦ reconstruct_record allocated site arguments argument_count context record'
    ]
