-- ===== src/Jit/Tiering/Invocation.antt =====
-- TieredCode.invoke (src/jit/tiering.cpp), run without other threads in between. The machine code
-- and its arguments are `run`, and the context is in its world.
use mathlib.Core.Path.{ap₂}
use uni_jit.Common.{
  ℕ, ◌≡◌, ap, ◌∙◌, Bool, true, false, not, ◌&&◌, ◌||◌, Option, none, some, if◌then◌else◌, arith,
}
use uni_jit.Status.{StatusCode}
use uni_jit.Runtime.Deoptimization.{DeoptimizationReason, DeoptimizationRecord}
use uni_jit.Jit.Handle.{
  CompiledFunction, CodeHandle, invalid_handle, is_valid, deoptimization_record, EvaluationResult,
  invalid_result, invoke,
}
use uni_jit.Jit.Hotness.{saturating_add, record_invocation, next_generation}
use uni_jit.Jit.Tiering.{
  CodeTier, DeoptimizationPolicy, is_optimized, Published, State, TieredCode, baseline_state,
  withdraw_optimized, withdraw_from,
}
use uni_jit.Jit.Tiering.Invariant.{IsTiered, IsState-known, optimized_fallback}

abbrev pub is_assumption_record : Option DeoptimizationRecord → Bool
is_assumption_record none = false
is_assumption_record (some r) = elim r.reason [
  | DeoptimizationReason.assumption_invalidated ↦ true
  | _ ↦ false
]

abbrev pub is_runtime_exit : StatusCode → Bool
is_runtime_exit StatusCode.runtime_exit = true
is_runtime_exit _ = false

unfoldable pub is_assumption_exit : CodeHandle → EvaluationResult → Bool
is_assumption_exit handle result =
    is_runtime_exit result.status.code
    && is_assumption_record (deoptimization_record result.status.location handle)

pub record TieredInvocationResult : Type 0 where
  pub result : EvaluationResult
  pub attempted_handle : CodeHandle
  pub attempted_tier : CodeTier
  pub generation : ℕ
  pub deoptimized : Bool
  pub retried_baseline : Bool

abbrev pub no_invocation : TieredInvocationResult
no_invocation = record {
  result = invalid_result;
  attempted_handle = invalid_handle;
  attempted_tier = CodeTier.no_tier;
  generation = 0;
  deoptimized = false;
  retried_baseline = false;
}

abbrev pub attempt : Published → EvaluationResult → TieredInvocationResult
attempt p result = record {
  result = result;
  attempted_handle = p.active;
  attempted_tier = p.tier;
  generation = p.generation;
  deoptimized = false;
  retried_baseline = false;
}

pub withdraw-matching :
    (t : TieredCode) (s : State) (f : Published)
    → t.state ≡ some s
    → s.fallback ≡ some f
    → is_optimized s.published.tier ≡ true
    → (withdraw_optimized s.published.generation t).0.state
      ≡ some (record { published = f; fallback = none })
unfolding withdraw_optimized withdraw_from
withdraw-matching t s f e k optimized = ground (arith, e, k, optimized)

module _ {ℓ} {World : Type ℓ} (run : CompiledFunction → World → EvaluationResult × World) where
  -- After the counter and the withdrawal.
  abbrev pub deoptimize :
      DeoptimizationPolicy
      → Published
      → TieredInvocationResult
      → TieredCode
      → World
      → TieredCode × World × TieredInvocationResult
  deoptimize DeoptimizationPolicy.return_exit p invocation t world =
      (t, world, record invocation { deoptimized = true })
  deoptimize DeoptimizationPolicy.retry_baseline p invocation t world =
      let (result, world') = invoke run p.baseline world in
      (
        record t { baseline_retries = saturating_add t.baseline_retries 1 },
        world',
        record invocation { deoptimized = true; result = result; retried_baseline = true },
      )

  abbrev pub counted : TieredCode → TieredCode
  counted t = record t {
    assumption_deoptimizations = saturating_add t.assumption_deoptimizations 1;
  }

  -- What follows the run of the active code, `t` with the invocation recorded.
  abbrev pub after_run :
      DeoptimizationPolicy
      → TieredCode
      → Published
      → EvaluationResult × World
      → TieredCode × World × TieredInvocationResult
  after_run policy t p (result, world) =
      if not (is_optimized p.tier) || not (is_assumption_exit p.active result)
      then (t, world, attempt p result)
      else deoptimize policy p (attempt p result) (withdraw_optimized p.generation (counted t)).0
          world

  abbrev pub recorded : TieredCode → TieredCode
  recorded t = record t { hotness = record_invocation t.hotness }

  unfoldable pub tiered_invoke :
      DeoptimizationPolicy → TieredCode → World → TieredCode × World × TieredInvocationResult
  tiered_invoke policy t world = elim t.state [
    | none ↦ (recorded t, world, no_invocation)
    | some s ↦
        if not (is_valid s.published.active)
        then (recorded t, world, no_invocation)
        else after_run policy (recorded t) s.published (invoke run s.published.active world)
  ]

  -- The invocation, as a function of the state found.
  abbrev pub chosen :
      DeoptimizationPolicy
      → TieredCode
      → World
      → Option State
      → TieredCode × World × TieredInvocationResult
  chosen policy t world none = (recorded t, world, no_invocation)
  chosen policy t world (some s) =
      if not (is_valid s.published.active)
      then (recorded t, world, no_invocation)
      else after_run policy (recorded t) s.published (invoke run s.published.active world)

  invoke-ran :
      (policy : DeoptimizationPolicy) (t : TieredCode) (s : State) (world : World)
      → t.state ≡ some s
      → is_valid s.published.active ≡ true
      → tiered_invoke policy t world
        ≡ after_run policy (recorded t) s.published (invoke run s.published.active world)
  unfolding tiered_invoke
  invoke-ran policy t s world e valid =
      ap (chosen policy t world) e
      ∙ ap
          (λ (b : Bool).
            if not b
            then (recorded t, world, no_invocation)
            else after_run policy (recorded t) s.published (invoke run s.published.active world))
          valid

  withdrawn-state :
      (t : TieredCode) (s : State)
      → IsTiered t
      → t.state ≡ some s
      → is_optimized s.published.tier ≡ true
      → (withdraw_optimized s.published.generation (counted (recorded t))).0.state
        ≡ some (record {
          published = baseline_state s.published.baseline (next_generation s.published.generation);
          fallback = none;
        })
  withdrawn-state t s h e optimized =
      let k =
        optimized_fallback s.published.tier s.published s.fallback t.hotness optimized
          (IsState-known t.state s t.hotness e h).4 in
      withdraw-matching (counted (recorded t)) s _ e k optimized

  exit_run :
      (policy : DeoptimizationPolicy) (t : TieredCode) (s : State) (world : World)
      → t.state ≡ some s
      → is_valid s.published.active ≡ true
      → is_optimized s.published.tier ≡ true
      → is_assumption_exit s.published.active (invoke run s.published.active world).0 ≡ true
      → tiered_invoke policy t world
        ≡ deoptimize policy s.published
            (attempt s.published (invoke run s.published.active world).0)
            (withdraw_optimized s.published.generation (counted (recorded t))).0
            (invoke run s.published.active world).1
  exit_run policy t s world e valid optimized left =
      invoke-ran policy t s world e valid
      ∙ ap₂
          (λ (a b : Bool).
            if not a || not b
            then (
              recorded t,
              (invoke run s.published.active world).1,
              attempt s.published (invoke run s.published.active world).0,
            )
            else deoptimize policy s.published
                (attempt s.published (invoke run s.published.active world).0)
                (withdraw_optimized s.published.generation (counted (recorded t))).0
                (invoke run s.published.active world).1)
          optimized left

  -- When the optimized code of a well-formed tiered code leaves because an assumption is invalidated, and the policy is
  -- to retry, the invocation gives what the baseline gives in the world that is left, and the baseline
  -- is active from then on, under the next generation.
  pub tiered_invoke-retries :
      (t : TieredCode) (s : State) (world : World)
      → IsTiered t
      → t.state ≡ some s
      → is_valid s.published.active ≡ true
      → is_optimized s.published.tier ≡ true
      → is_assumption_exit s.published.active (invoke run s.published.active world).0 ≡ true
      → ((tiered_invoke DeoptimizationPolicy.retry_baseline t world).2.result
          ≡ (invoke run s.published.baseline (invoke run s.published.active world).1).0)
        × ((tiered_invoke DeoptimizationPolicy.retry_baseline t world).2.deoptimized ≡ true)
        × ((tiered_invoke DeoptimizationPolicy.retry_baseline t world).0.state
            ≡ some (record {
              published =
                  baseline_state s.published.baseline (next_generation s.published.generation);
              fallback = none;
            }))
  tiered_invoke-retries t s world h e valid optimized left =
      let ran = exit_run DeoptimizationPolicy.retry_baseline t s world e valid optimized left in
      (
        ap (λ p. p.2.result) ran,
        ap (λ p. p.2.deoptimized) ran,
        ap (λ p. p.0.state) ran ∙ withdrawn-state t s h e optimized,
      )
