-- ===== src/Tests/Frames.antt =====
-- The deoptimization table (src/runtime/deoptimization.cpp) with one record.
use uni_jit.Common.{inl, inr, IsFirst, ℕ, ◌≡◌, refl, true, none, some, [], ◌∷◌, All, arith}
use uni_jit.Status.{is_ok, success}
use uni_jit.Ir.Opcode.{ValueType}
use uni_jit.Runtime.Context.{ExitReason, ExecutionContext}
use uni_jit.Runtime.Deoptimization.{
  RecoveredValue, DeoptimizationReason, RecoverySource, RecoveryOperation, DeoptimizationRecord,
  DeoptimizationTable, ReconstructedFrame, find_record, check_recovery, add_record, validate,
  validate_recovery, recover_value, recover_values, recovered, reconstruct_record, reconstruct,
}
use uni_jit.Runtime.Deoptimization.Table.{IsTable, add_record-IsTable, find_record-add_record}
use uni_jit.Runtime.Deoptimization.Frame.{Supplied, reconstruct-Recovers}
use uni_jit.Runtime.Deoptimization.Success.{IsAvailable, reconstruct_succeeds}

abbrev from_argument : RecoveryOperation
from_argument = record {
  slot = 3;
  type = ValueType.word;
  source = RecoverySource.argument;
  argument_index = 0;
  constant = 0;
  source_value = 0;
  capture_index = 0;
}

abbrev from_capture : RecoveryOperation
from_capture = record {
  slot = 4;
  type = ValueType.float64;
  source = RecoverySource.captured_value;
  argument_index = 0;
  constant = 0;
  source_value = 12;
  capture_index = 0;
}

abbrev guard_record : DeoptimizationRecord
guard_record = record {
  site = 7;
  resume_offset = 40;
  reason = DeoptimizationReason.guard_failed;
  recovery = from_argument ∷ from_capture ∷ [];
}

abbrev guard_table : DeoptimizationTable
guard_table = guard_record ∷ []

abbrev left_at_guard : ExecutionContext
left_at_guard = record {
  interrupt_requested = 0;
  exit_reason = ExitReason.runtime;
  exit_site = 7;
  exit_value = 0;
  captured_values = 99 ∷ [];
  safepoint_polls = 0;
  memory_regions = none;
  memory_region_count = 0;
}

abbrev the_arguments : ℕ → ℕ
the_arguments index = 55

add_record_example : IsTable (add_record true guard_record []).0
add_record_example = add_record-IsTable true guard_record [] (_, _)

record_accepted : is_ok (add_record true guard_record []).1 ≡ true
unfolding add_record find_record check_recovery
record_accepted = refl

find_record_example : find_record 7 (add_record true guard_record []).0 ≡ some guard_record
find_record_example = find_record-add_record true guard_record [] record_accepted

guard_table-IsTable : IsTable guard_table
guard_table-IsTable = (
  (
    (
      ((inl refl, λ e. absurd (ground (arith, e))), ((inr refl, λ c e. omega (arith, e)), _)),
      ((λ e. omega (arith, e), _), (_, _)),
    ),
    _,
  ),
  (_, _),
)

abbrev guard_frame : ReconstructedFrame
guard_frame = record {
  reason = DeoptimizationReason.guard_failed;
  site = 7;
  resume_offset = 40;
  values = recovered from_argument 55 ∷ recovered from_capture 99 ∷ [];
}

guard_reconstructs :
    reconstruct true 7 (some the_arguments) 1 left_at_guard guard_table ≡ success guard_frame
unfolding reconstruct reconstruct_record find_record recover_values recover_value
guard_reconstructs = refl

reconstruct_example :
    (r : DeoptimizationRecord) × (find_record 7 guard_table ≡ some r)
    × (◌≡◌ {A = ℕ} 7 7)
    × (true ≡ true)
    × (guard_frame.site ≡ 7)
    × (guard_frame.resume_offset ≡ r.resume_offset)
    × (guard_frame.reason ≡ r.reason)
    × All
        (λ (o : RecoveryOperation).
          (w : RecoveredValue) × IsFirst
            (λ (c : RecoveredValue). c.slot)
            o.slot
            w
            guard_frame.values
          × (w.type ≡ o.type)
          × Supplied 7 (some the_arguments) 1 left_at_guard o.source o w.value)
        r.recovery
reconstruct_example =
    reconstruct-Recovers 7 (some the_arguments) 1 left_at_guard true guard_table guard_frame
      guard_table-IsTable guard_reconstructs

guard_validates : is_ok (validate 1 guard_table) ≡ true
unfolding validate validate_recovery
guard_validates = refl

guard_found : find_record 7 guard_table ≡ some guard_record
unfolding find_record
guard_found = refl

guard_record-IsAvailable : All (IsAvailable left_at_guard) guard_record.recovery
guard_record-IsAvailable = (λ e. absurd (ground (arith, e)), (λ e. (omega arith, omega arith), _))

reconstruct_succeeds_example :
    (frame : ReconstructedFrame) × (reconstruct true 7
        (some the_arguments)
        1
        left_at_guard
        guard_table
      ≡ success frame)
reconstruct_succeeds_example =
    reconstruct_succeeds 7 1 1 the_arguments left_at_guard guard_table guard_record guard_validates
      (omega arith) guard_found refl refl guard_record-IsAvailable
