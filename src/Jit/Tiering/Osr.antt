-- ===== src/Jit/Tiering/Osr.antt =====
-- On-stack replacement into published code: CompiledFunction::enter_osr (src/jit/compiler.cpp),
-- CodeHandle::enter_osr (src/jit/code_cache.cpp) and TieredCode::enter_osr (src/jit/tiering.cpp), run
-- without other threads in between. `run` is CompiledFunction::invoke, with the context in its world.
use Prim.Native.Nat.{min}
use uni_jit.Common.{
  ℕ, ◌+◌, ◌-◌, ◌^◌, ◌≡◌, ap, ◌∙◌, Bool, true, false, not, ◌&&◌, Option, none, some, [],
  if◌then◌else◌, if_true, if_false, arith,
}
use uni_jit.Status.{StatusCode, status, is_ok}
use uni_jit.Runtime.Osr.{OsrFrame, OsrEntryPlan, OsrArguments, marshal}
use uni_jit.Runtime.Osr.Transfer.{Accepts, marshal_refuses}
use uni_jit.Jit.Handle.{
  CompiledFunction, of_function, CodeHandle, invalid_handle, is_valid, EvaluationResult,
}
use uni_jit.Jit.Hotness.{saturating_add, next_generation}
use uni_jit.Jit.Tiering.{
  CodeTier, is_optimized, Published, State, TieredCode, baseline_state, withdraw_optimized,
}
use uni_jit.Jit.Tiering.Invariant.{IsTiered, IsState-known, optimized_fallback}
use uni_jit.Jit.Tiering.Invocation.{is_assumption_exit, is_runtime_exit, withdraw-matching}

pub record OsrEntryResult : Type 0 where
  pub arguments : OsrArguments
  pub result : EvaluationResult

abbrev pub entered : OsrEntryResult → Bool
entered entry = is_ok entry.arguments.status

abbrev pub refused_arguments : OsrArguments
refused_arguments = record {
  status = status StatusCode.invalid_argument 0;
  entry_site = 0;
  resume_offset = 0;
  count = 0;
  values = [];
}

abbrev pub refused_entry : OsrArguments → OsrEntryResult
refused_entry arguments = record {
  arguments = arguments;
  result = record { status = arguments.status; value = 0 };
}

abbrev pub ran {ℓ} :
    {World : Type ℓ} → OsrArguments → EvaluationResult × World → OsrEntryResult × World
ran arguments (result, world) = (record { arguments = arguments; result = result }, world)

pub record TieredOsrEntryResult : Type 0 where
  pub entry : OsrEntryResult
  pub attempted_handle : CodeHandle
  pub attempted_tier : CodeTier
  pub generation : ℕ
  pub deoptimized : Bool

abbrev pub no_transfer : TieredOsrEntryResult
no_transfer = record {
  entry = refused_entry refused_arguments;
  attempted_handle = invalid_handle;
  attempted_tier = CodeTier.no_tier;
  generation = 0;
  deoptimized = false;
}

abbrev pub transfer_to : Published → OsrEntryResult → TieredOsrEntryResult
transfer_to p entry = record {
  entry = entry;
  attempted_handle = p.active;
  attempted_tier = p.tier;
  generation = p.generation;
  deoptimized = false;
}

abbrev pub count_osr_attempt : TieredCode → TieredCode
count_osr_attempt t = record t { osr_attempts = saturating_add t.osr_attempts 1 }

abbrev pub count_osr_entry : TieredCode → TieredCode
count_osr_entry t = record t { osr_entries = saturating_add t.osr_entries 1 }

abbrev pub count_osr_exit : TieredCode → TieredCode
count_osr_exit t = record t { osr_exits = saturating_add t.osr_exits 1 }

abbrev pub count_deoptimization : TieredCode → TieredCode
count_deoptimization t = record t {
  assumption_deoptimizations = saturating_add t.assumption_deoptimizations 1;
}

assumption_exit-runtime :
    (handle : CodeHandle) (result : EvaluationResult)
    → is_assumption_exit handle result ≡ true
    → is_runtime_exit result.status.code ≡ true
unfolding is_assumption_exit
assumption_exit-runtime handle result left = ground (arith, left)

saturating_add-min : (n : ℕ) → saturating_add n 1 ≡ min (n + 1) (2 ^ 64 - 1)
unfolding saturating_add
saturating_add-min n = ground arith

module _ {ℓ} {World : Type ℓ}
    (run : CompiledFunction → OsrArguments → World → EvaluationResult × World) (frame : OsrFrame)
    (plan : OsrEntryPlan) where
  unfoldable pub function_enter_osr : CompiledFunction → World → OsrEntryResult × World
  function_enter_osr f world =
      let arguments = marshal frame f.parameter_types plan in
      if not (is_ok arguments.status)
      then (refused_entry arguments, world)
      else ran arguments (run f arguments world)

  abbrev pub handle_enter_osr : CodeHandle → World → OsrEntryResult × World
  handle_enter_osr handle world = elim handle.function [
    | none ↦ (refused_entry refused_arguments, world)
    | some f ↦ function_enter_osr f world
  ]

  -- The transfer's entry has been run; `t` has the attempt counted.
  abbrev pub after_entry :
      Published → TieredCode → OsrEntryResult × World → TieredCode × World × TieredOsrEntryResult
  after_entry p t (entry, world) =
      if not (entered entry)
      then (t, world, transfer_to p entry)
      else if not (is_runtime_exit entry.result.status.code)
      then (count_osr_entry t, world, transfer_to p entry)
      else (
        if is_optimized p.tier && is_assumption_exit p.active entry.result
            then (withdraw_optimized p.generation
                (count_deoptimization (count_osr_exit (count_osr_entry t)))).0
            else count_osr_exit (count_osr_entry t),
        world,
        record (transfer_to p entry) { deoptimized = true },
      )

  -- On the state that is published.
  abbrev pub enter_published :
      TieredCode → World → Option State → TieredCode × World × TieredOsrEntryResult
  enter_published t world none = (t, world, no_transfer)
  enter_published t world (some s) =
      if not (is_valid s.published.active)
      then (t, world, no_transfer)
      else after_entry s.published t (handle_enter_osr s.published.active world)

  unfoldable pub tiered_enter_osr : TieredCode → World → TieredCode × World × TieredOsrEntryResult
  tiered_enter_osr t world = enter_published (count_osr_attempt t) world t.state

  entered_outcome :
      (t : TieredCode) (s : State) (world : World)
      → t.state ≡ some s
      → is_valid s.published.active ≡ true
      → tiered_enter_osr t world
        ≡ after_entry s.published (count_osr_attempt t) (handle_enter_osr s.published.active world)
  unfolding tiered_enter_osr
  entered_outcome t s world e valid =
      ap (enter_published (count_osr_attempt t) world) e ∙ if_false _ _ (ap not valid)

  refused_outcome :
      (t : TieredCode) (s : State) (f : CompiledFunction) (world : World)
      → t.state ≡ some s
      → s.published.active.function ≡ some f
      → is_ok (marshal frame f.parameter_types plan).status ≡ false
      → tiered_enter_osr t world ≡ (
        count_osr_attempt t,
        world,
        transfer_to s.published (refused_entry (marshal frame f.parameter_types plan)),
      )
  unfolding function_enter_osr
  refused_outcome t s f world e active refused =
      entered_outcome t s world e (ap (of_function false (λ g. true)) active)
      ∙ ap (after_entry s.published (count_osr_attempt t))
          (on_function ∙ if_true _ _ (ap not refused))
      ∙ if_true _ _ (ap not refused)
    where
      on_function : handle_enter_osr s.published.active world ≡ function_enter_osr f world
      on_function =
          ap
            (λ o. elim o [
              | none ↦ (refused_entry refused_arguments, world)
              | some g ↦ function_enter_osr g world
            ])
            active

  -- Where the frame is not of the plan's site and offset, or has no values of the right types for the
  -- bindings and the parameters of the active function, an entry runs no code and reports no success
  -- and no deoptimization. Of the tiered code it changes only the number of attempts, which
  -- goes up by one unless it is at its maximum.
  pub tiered_enter_osr_refuses :
      (t : TieredCode) (s : State) (f : CompiledFunction) (world : World)
      → t.state ≡ some s
      → s.published.active.function ≡ some f
      → (Accepts frame f.parameter_types plan → ⊥)
      → ((tiered_enter_osr t world).0
          ≡ record t { osr_attempts = min (t.osr_attempts + 1) (2 ^ 64 - 1) })
        × ((tiered_enter_osr t world).1 ≡ world)
        × (is_ok (tiered_enter_osr t world).2.entry.arguments.status ≡ false)
        × (is_ok (tiered_enter_osr t world).2.entry.result.status ≡ false)
        × ((tiered_enter_osr t world).2.deoptimized ≡ false)
  tiered_enter_osr_refuses t s f world e active unfit =
      let bad = marshal_refuses frame f.parameter_types plan unfit in
      let outcome = refused_outcome t s f world e active bad in
      (
        ap (λ r. r.0) outcome
            ∙ ap (λ (n : ℕ). record t { osr_attempts = n }) (saturating_add-min t.osr_attempts),
        ap (λ r. r.1) outcome,
        ap (λ r. is_ok r.2.entry.arguments.status) outcome ∙ bad,
        ap (λ r. is_ok r.2.entry.result.status) outcome ∙ bad,
        ap (λ r. r.2.deoptimized) outcome,
      )

  -- When optimized code that was entered on the stack leaves because an assumption is invalidated, the
  -- transfer says so, and the baseline is active from then on, under the next generation.
  pub tiered_enter_osr-restores :
      (t : TieredCode) (s : State) (world : World)
      → IsTiered t
      → t.state ≡ some s
      → is_valid s.published.active ≡ true
      → is_optimized s.published.tier ≡ true
      → entered (handle_enter_osr s.published.active world).0 ≡ true
      → is_assumption_exit s.published.active (handle_enter_osr s.published.active world).0.result
        ≡ true
      → ((tiered_enter_osr t world).2.deoptimized ≡ true)
        × ((tiered_enter_osr t world).0.state
            ≡ some (record {
              published =
                  baseline_state s.published.baseline (next_generation s.published.generation);
              fallback = none;
            }))
  tiered_enter_osr-restores t s world h e valid optimized went left =
      let run_outcome = handle_enter_osr s.published.active world in
      let counted = count_deoptimization (count_osr_exit (count_osr_entry (count_osr_attempt t))) in
      let outcome =
        entered_outcome t s world e valid
        ∙ if_false _ _ (ap not went)
        ∙ if_false _ _
            (ap not (assumption_exit-runtime s.published.active run_outcome.0.result left)) in
      let fallback =
        optimized_fallback s.published.tier s.published s.fallback t.hotness optimized
          (IsState-known t.state s t.hotness e h).4 in
      (
        ap (λ (r : TieredCode × World × TieredOsrEntryResult). r.2.deoptimized) outcome,
        ap (λ (r : TieredCode × World × TieredOsrEntryResult). r.0.state) outcome
            ∙ ap (λ (u : TieredCode). u.state) (if_true _ _ (both optimized left))
            ∙ withdraw-matching counted s _ e fallback optimized,
      )
    where
      both : {a b : Bool} → a ≡ true → b ≡ true → (a && b) ≡ true
      both p q = ground (arith, p, q)
