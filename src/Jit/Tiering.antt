-- ===== src/Jit/Tiering.antt =====
-- TieredCode of include/unijit/jit/tiering.h and src/jit/tiering.cpp. Publication happens under a
-- mutex, so each operation is one step on the state; `allocated` says whether memory is found. An
-- object that was moved from is not modelled.
pub mod Invariant
pub mod Kept
pub mod Promotion
pub mod Invocation
pub mod Osr
use uni_jit.Common.{
  ℕ, zero, suc, ◌+◌, ◌≡◌, Bool, true, false, not, ◌&&◌, ◌||◌, Option, none, some, ltb,
  if◌then◌else◌, ◌==◌,
}
use uni_jit.Status.{StatusCode, Status, status, ok_status}
use uni_jit.Ir.Opcode.{ValueType, same_type}
use uni_jit.Runtime.Assumption.{Assumption, Store}
use uni_jit.Runtime.Deoptimization.{DeoptimizationReason, DeoptimizationRecord}
use uni_jit.Jit.Handle.{
  CompiledFunction, CodeHandle, invalid_handle, is_valid, parameter_count, parameter_type,
  return_type, assumption_count, assumptions_valid, deoptimization_record, EvaluationResult,
  invalid_result, invoke,
}
use uni_jit.Jit.Hotness.{
  TieringThresholds, Profile, new_profile, saturating_add, next_generation, record_invocation,
  record_backedges, reset_for_baseline, mark_optimized, mark_deoptimized, try_begin_optimization,
  report_optimization_failure,
}

pub data CodeTier : Type 0 where
  no_tier baseline optimized : CodeTier

pub data DeoptimizationPolicy : Type 0 where
  return_exit retry_baseline : DeoptimizationPolicy

abbrev pub is_baseline : CodeTier → Bool
is_baseline CodeTier.baseline = true
is_baseline _ = false

abbrev pub is_optimized : CodeTier → Bool
is_optimized CodeTier.optimized = true
is_optimized _ = false

pub record Published : Type 0 where
  pub baseline : CodeHandle
  pub active : CodeHandle
  pub tier : CodeTier
  pub generation : ℕ

-- A state, and the state to fall back to, whose own fallback is null.
pub record State : Type 0 where
  pub published : Published
  pub fallback : Option Published

pub record TieredCode : Type 0 where
  pub state : Option State
  pub hotness : Profile
  pub promotions : ℕ
  pub withdrawals : ℕ
  pub assumption_deoptimizations : ℕ
  pub baseline_retries : ℕ
  pub osr_attempts : ℕ
  pub osr_entries : ℕ
  pub osr_exits : ℕ

unfoldable pub new_tiered_code : TieringThresholds → TieredCode
new_tiered_code thresholds = record {
  state = none;
  hotness = new_profile thresholds;
  promotions = 0;
  withdrawals = 0;
  assumption_deoptimizations = 0;
  baseline_retries = 0;
  osr_attempts = 0;
  osr_entries = 0;
  osr_exits = 0;
}

abbrev pub generation_of : Option State → ℕ
generation_of none = 0
generation_of (some s) = s.published.generation

abbrev pub baseline_state : CodeHandle → ℕ → Published
baseline_state handle generation = record {
  baseline = handle;
  active = handle;
  tier = CodeTier.baseline;
  generation = generation;
}

unfoldable pub publish_baseline : Bool → CodeHandle → TieredCode → TieredCode × Status
publish_baseline allocated handle t =
    if not (is_valid handle)
    then (t, status StatusCode.invalid_argument 0)
    else if not (assumption_count handle == 0)
    then (t, status StatusCode.invalid_argument 0)
    else if allocated
    then (
      record t {
        state = some (record {
          published = baseline_state handle (next_generation (generation_of t.state));
          fallback = none;
        });
        hotness = reset_for_baseline t.hotness;
      },
      ok_status,
    )
    else (t, status StatusCode.resource_exhausted 0)

-- The loop over the parameters, with `rounds` left.
unfoldable pub parameters_match : CodeHandle → CodeHandle → ℕ → ℕ → Bool
parameters_match a b index zero = true
parameters_match a b index (suc rounds) =
    let rest = parameters_match a b (index + 1) rounds in
    same_type (parameter_type index a) (parameter_type index b) && rest

unfoldable pub signature_matches : CodeHandle → CodeHandle → Bool
signature_matches a b =
    parameter_count a == parameter_count b
    && same_type (return_type a) (return_type b)
    && parameters_match a b 0 (parameter_count a)

-- The state that publish_optimized stores over a state.
abbrev pub promoted : CodeHandle → Published → State
promoted handle previous =
    let generation = next_generation previous.generation in
    record {
      published = record {
        baseline = previous.baseline;
        active = handle;
        tier = CodeTier.optimized;
        generation = generation;
      };
      fallback = some (baseline_state previous.baseline (next_generation generation));
    }

abbrev pub is_stale : ℕ → Published → Bool
is_stale expected_generation previous =
    not (expected_generation == 0) && not (previous.generation == expected_generation)

unfoldable pub publish_optimized_over :
    Bool → CodeHandle → ℕ → TieredCode → Published → TieredCode × Status
publish_optimized_over allocated handle expected_generation t previous =
    if not (is_valid previous.baseline)
    then (t, status StatusCode.invalid_argument 0)
    else if is_stale expected_generation previous
    then (t, status StatusCode.invalid_argument 0)
    else if not (signature_matches handle previous.baseline)
    then (t, status StatusCode.invalid_argument 0)
    else if allocated
    then (
      record t {
        state = some (promoted handle previous);
        promotions = saturating_add t.promotions 1;
        hotness = mark_optimized t.hotness;
      },
      ok_status,
    )
    else (t, status StatusCode.resource_exhausted 0)

unfoldable pub publish_optimized :
    Store Assumption → Bool → CodeHandle → ℕ → TieredCode → TieredCode × Status
publish_optimized store allocated handle expected_generation t =
    if not (is_valid handle)
    then (t, status StatusCode.invalid_argument 0)
    else if not (assumptions_valid store handle)
    then (t, status StatusCode.invalid_argument 0)
    else elim t.state [
      | none ↦ (t, status StatusCode.invalid_argument 0)
      | some s ↦ publish_optimized_over allocated handle expected_generation t s.published
    ]

unfoldable pub withdraw_from : ℕ → TieredCode → Published → Option Published → TieredCode × Bool
withdraw_from expected_generation t previous none = (t, false)
withdraw_from expected_generation t previous (some fallback) =
    if not (is_optimized previous.tier) || is_stale expected_generation previous
    then (t, false)
    else (
      record t {
        state = some (record { published = fallback; fallback = none });
        withdrawals = saturating_add t.withdrawals 1;
        hotness = mark_deoptimized t.hotness;
      },
      true,
    )

unfoldable pub withdraw_optimized : ℕ → TieredCode → TieredCode × Bool
withdraw_optimized expected_generation t = elim t.state [
  | none ↦ (t, false)
  | some s ↦ withdraw_from expected_generation t s.published s.fallback
]

pub record TieredCodeSnapshot : Type 0 where
  pub handle : CodeHandle
  pub tier : CodeTier
  pub generation : ℕ

abbrev pub no_snapshot : TieredCodeSnapshot
no_snapshot = record { handle = invalid_handle; tier = CodeTier.no_tier; generation = 0 }

unfoldable pub snapshot : TieredCode → TieredCodeSnapshot
snapshot t = elim t.state [
  | none ↦ no_snapshot
  | some s ↦ record {
    handle = s.published.active;
    tier = s.published.tier;
    generation = s.published.generation;
  }
]

unfoldable pub tiered_record_backedges : ℕ → TieredCode → TieredCode
tiered_record_backedges count t = record t { hotness = record_backedges count t.hotness }

abbrev pub claimed_by : TieredCode → Profile × Bool → TieredCode × Bool
claimed_by t (p, claimed) = (record t { hotness = p }, claimed)

unfoldable pub tiered_try_begin_optimization : TieredCode → TieredCode × Bool
tiered_try_begin_optimization t = elim t.state [
  | none ↦ (t, false)
  | some s ↦
      if is_baseline s.published.tier
      then claimed_by t (try_begin_optimization t.hotness)
      else (t, false)
]

abbrev pub reported_by : TieredCode → Profile × Status → TieredCode × Status
reported_by t (p, s) = (record t { hotness = p }, s)

unfoldable pub tiered_report_optimization_failure : TieredCode → TieredCode × Status
tiered_report_optimization_failure t = reported_by t (report_optimization_failure t.hotness)
