-- ===== src/Tests/Tiers.antt =====
-- Tiered code (src/jit/tiering.cpp): a baseline, and optimized code over it that rests on one assumption.
use Prim.Native.Nat.{min}
use uni_jit.Common.{
  ℕ, ◌+◌, ◌-◌, ◌^◌, ◌≤◌, ◌⊎◌, ◌≡◌, refl, inl, true, false, none, some, [], ◌∷◌, ◌==◌, if◌then◌else◌,
  arith,
}
use uni_jit.Status.{StatusCode, status, ok_status, is_ok}
use uni_jit.Ir.Opcode.{ValueType}
use uni_jit.Runtime.Assumption.{Assumption, Store, first_invalid}
use uni_jit.Runtime.Deoptimization.{DeoptimizationReason, find_record}
use uni_jit.Jit.Target.{
  TargetArchitecture, TargetAbi, TargetEndianness, VectorWidthPolicy, TargetProfile,
}
use uni_jit.Jit.Handle.{
  CompiledFunction, CodeHandle, EvaluationResult, assumption_count, assumptions_valid,
  parameter_count, parameter_type, return_type, deoptimization_record, invoke,
}
use uni_jit.Jit.Hotness.{
  TieringThresholds, Profile, new_profile, next_generation, is_hot, try_begin_optimization,
  report_optimization_failure, try_begin_optimization-claims,
}
use uni_jit.Jit.Tiering.{
  DeoptimizationPolicy, is_optimized, State, TieredCode, new_tiered_code, baseline_state, promoted,
  publish_baseline, publish_optimized, publish_optimized_over, signature_matches, parameters_match,
  withdraw_optimized, withdraw_from,
}
use uni_jit.Runtime.Osr.{
  OsrFrame, OsrEntryPlan, OsrArguments, new_frame, new_plan, add_value, add_argument, find_slot,
  find_binding, marshal, marshal_loop,
}
use uni_jit.Runtime.Osr.Transfer.{Carried, Accepts, marshal-Carried, marshal_succeeds}
use uni_jit.Jit.Tiering.Osr.{
  tiered_enter_osr, function_enter_osr, tiered_enter_osr_refuses, tiered_enter_osr-restores,
}
use uni_jit.Jit.Tiering.Invariant.{IsTiered}
use uni_jit.Jit.Tiering.Promotion.{Step, Reachable, Reachable-IsTiered, withdraw_optimized-restores}
use uni_jit.Jit.Tiering.Invocation.{is_assumption_exit, tiered_invoke, tiered_invoke-retries}

abbrev thresholds : TieringThresholds
thresholds = record { invocations = 0; backedges = 10; retry_delay = 5 }

abbrev linux_x86 : TargetProfile
linux_x86 = record {
  architecture = TargetArchitecture.x86_64;
  abi = TargetAbi.system_v;
  endianness = TargetEndianness.little;
  features = 5;
  vector_width_policy = VectorWidthPolicy.portable128;
  maximum_vector_bits = 128;
}

abbrev plain : CodeHandle
plain = record {
  function = some (record {
    parameter_types = ValueType.word ∷ [];
    return_type = ValueType.word;
    assumptions = [];
    deoptimization_table = [];
    target_profile = linux_x86;
    executable_mapping_size = 64;
    entry = 4096;
  });
  generation = 1;
}

abbrev speculative_function : CompiledFunction
speculative_function = record {
  parameter_types = ValueType.word ∷ [];
  return_type = ValueType.word;
  assumptions = record { assumption = 1; site = 10; resume_offset = 0 } ∷ [];
  deoptimization_table =
      record {
        site = 10;
        resume_offset = 0;
        reason = DeoptimizationReason.assumption_invalidated;
        recovery = [];
      }
      ∷ [];
  target_profile = linux_x86;
  executable_mapping_size = 64;
  entry = 8192;
}

abbrev speculative : CodeHandle
speculative = record { function = some speculative_function; generation = 2 }

abbrev all_valid : Store Assumption
all_valid t = record { valid = true; active_contexts = [] }

abbrev with_baseline : TieredCode
with_baseline = (publish_baseline true plain (new_tiered_code thresholds)).0

abbrev with_optimized : TieredCode
with_optimized = (publish_optimized all_valid true speculative 0 with_baseline).0

optimized-Reachable : Reachable thresholds with_optimized
optimized-Reachable =
    Reachable.then (Reachable.then Reachable.start (Step.publishes_baseline true plain))
      (Step.publishes_optimized all_valid true speculative 0)

reachable_example : IsTiered with_optimized
reachable_example = Reachable-IsTiered optimized-Reachable

abbrev optimized_state : State
optimized_state = promoted speculative (baseline_state plain 1)

optimized_published : with_optimized.state ≡ some optimized_state
unfolding publish_optimized publish_optimized_over publish_baseline new_tiered_code
    assumptions_valid first_invalid assumption_count signature_matches parameters_match
    parameter_count parameter_type return_type next_generation
optimized_published = refl

withdrawal_succeeds : (withdraw_optimized 2 with_optimized).1 ≡ true
unfolding withdraw_optimized withdraw_from publish_optimized publish_optimized_over publish_baseline
    new_tiered_code assumptions_valid first_invalid assumption_count signature_matches
    parameters_match parameter_count parameter_type return_type next_generation
withdrawal_succeeds = refl

withdraw_example :
    (s : State) × (with_optimized.state ≡ some s)
    × (is_optimized s.published.tier ≡ true)
    × (s.published.generation ≡ 2)
    × ((withdraw_optimized 2 with_optimized).0.state
        ≡ some (record {
          published = baseline_state s.published.baseline (next_generation 2);
          fallback = none;
        }))
withdraw_example =
    withdraw_optimized-restores 2 with_optimized reachable_example (omega arith) withdrawal_succeeds

-- Machine code that leaves at site 10 when it is speculative, and gives 1 otherwise.
abbrev machine : CompiledFunction → ℕ → EvaluationResult × ℕ
machine f world =
    if f.entry == 8192
    then (record { status = status StatusCode.runtime_exit 10; value = 0 }, world)
    else (record { status = ok_status; value = 1 }, world)

machine_leaves : is_assumption_exit speculative (invoke machine speculative 0).0 ≡ true
unfolding is_assumption_exit invoke deoptimization_record find_record
machine_leaves = refl

retries_example :
    ((tiered_invoke machine DeoptimizationPolicy.retry_baseline with_optimized 0).2.result
      ≡ (invoke machine plain (invoke machine speculative 0).1).0)
    × ((tiered_invoke machine DeoptimizationPolicy.retry_baseline with_optimized 0).2.deoptimized
        ≡ true)
    × ((tiered_invoke machine DeoptimizationPolicy.retry_baseline with_optimized 0).0.state
        ≡ some (record {
          published = baseline_state plain (next_generation optimized_state.published.generation);
          fallback = none;
        }))
retries_example =
    tiered_invoke-retries machine with_optimized optimized_state 0 reachable_example
      optimized_published refl refl machine_leaves

abbrev cold_start : Profile
cold_start = new_profile thresholds

claim_granted : (try_begin_optimization cold_start).1 ≡ true
unfolding try_begin_optimization is_hot
claim_granted = refl

claims_example :
    (cold_start.optimized_active ≡ false)
    × ((cold_start.next_invocation ≤ cold_start.invocations)
        ⊎ (cold_start.next_backedge ≤ cold_start.backedges))
    × (is_hot cold_start ≡ true)
    × (false ≡ false)
    × (try_begin_optimization (try_begin_optimization cold_start).0
        ≡ ((try_begin_optimization cold_start).0, false))
    × (is_ok (report_optimization_failure (try_begin_optimization cold_start).0).1 ≡ true)
claims_example = try_begin_optimization-claims cold_start claim_granted

-- An interpreter frame at site 5 with the word 9 in slot 2, which the plan passes as the argument.
abbrev stack_frame : OsrFrame
stack_frame = (add_value true 2 ValueType.word 9 (new_frame 5 40)).0

abbrev entry_plan : OsrEntryPlan
entry_plan = (add_argument true 2 ValueType.word (new_plan 5 40)).0

abbrev carried : Carried stack_frame entry_plan.bindings (ValueType.word ∷ []) (9 ∷ [])
unfolding add_value add_argument find_slot find_binding
carried =
    (refl, (record { slot = 2; type = ValueType.word; value = 9 }, inl (refl, refl), refl, refl), _)

marshal_succeeds_example :
    marshal stack_frame (ValueType.word ∷ []) entry_plan
    ≡ record { status = ok_status; entry_site = 5; resume_offset = 40; count = 1; values = 9 ∷ [] }
unfolding add_value add_argument find_slot find_binding
marshal_succeeds_example =
    marshal_succeeds stack_frame (ValueType.word ∷ []) entry_plan (9 ∷ []) refl refl carried

marshal_carries_example :
    (stack_frame.entry_site ≡ entry_plan.entry_site)
    × (stack_frame.resume_offset ≡ entry_plan.resume_offset)
    × Carried stack_frame entry_plan.bindings
        (ValueType.word ∷ [])
        (marshal stack_frame (ValueType.word ∷ []) entry_plan).values
unfolding add_value add_argument find_slot find_binding marshal marshal_loop
marshal_carries_example = marshal-Carried stack_frame (ValueType.word ∷ []) entry_plan refl

abbrev entry_machine : CompiledFunction → OsrArguments → ℕ → EvaluationResult × ℕ
entry_machine f arguments world = machine f world

osr_restores_example :
    ((tiered_enter_osr entry_machine stack_frame entry_plan with_optimized 0).2.deoptimized ≡ true)
    × ((tiered_enter_osr entry_machine stack_frame entry_plan with_optimized 0).0.state
        ≡ some (record {
          published = baseline_state plain (next_generation optimized_state.published.generation);
          fallback = none;
        }))
unfolding add_value add_argument find_slot find_binding marshal marshal_loop function_enter_osr
    is_assumption_exit deoptimization_record find_record
osr_restores_example =
    tiered_enter_osr-restores entry_machine stack_frame entry_plan with_optimized optimized_state 0
      reachable_example optimized_published refl refl refl refl

-- A plan for another site is refused.
abbrev other_plan : OsrEntryPlan
other_plan = new_plan 6 40

osr_refuses_example :
    ((tiered_enter_osr entry_machine stack_frame other_plan with_optimized 0).0
      ≡ record with_optimized { osr_attempts = min (with_optimized.osr_attempts + 1) (2 ^ 64 - 1) })
    × ((tiered_enter_osr entry_machine stack_frame other_plan with_optimized 0).1 ≡ 0)
    × (is_ok
          (tiered_enter_osr entry_machine stack_frame other_plan with_optimized
            0).2.entry.arguments.status
        ≡ false)
    × (is_ok
          (tiered_enter_osr entry_machine stack_frame other_plan with_optimized
            0).2.entry.result.status
        ≡ false)
    × ((tiered_enter_osr entry_machine stack_frame other_plan with_optimized 0).2.deoptimized
        ≡ false)
unfolding add_value find_slot
osr_refuses_example =
    tiered_enter_osr_refuses entry_machine stack_frame other_plan with_optimized optimized_state
      speculative_function 0 optimized_published refl unfit
  where
    unfit : Accepts stack_frame (ValueType.word ∷ []) other_plan → ⊥
    unfit (site, offset, values) = absurd (omega (arith, site))
