-- ===== src/Jit/Tiering/Kept.antt =====
-- What claims, reports, invocations and entries on the stack keep of a TieredCode
-- (src/jit/tiering.cpp).
use mathlib.Core.Path.{subst}
use uni_jit.Common.{
  ◌≡◌, inl, inr, refl, sym, ◌∙◌, true, false, Option, none, some, arith, Bool-cases, Option-cases,
  not, ◌&&◌, ◌||◌, if_both,
}
use uni_jit.Jit.Handle.{CompiledFunction, EvaluationResult, is_valid, invoke}
use uni_jit.Jit.Hotness.{
  Profile, record_invocation, rearm, try_begin_optimization, report_optimization_failure,
}
use uni_jit.Jit.Tiering.{
  CodeTier, DeoptimizationPolicy, is_optimized, is_baseline, Published, State, TieredCode,
  withdraw_optimized, tiered_try_begin_optimization,
}
use uni_jit.Jit.Tiering.Invariant.{
  IsTier, IsState, IsTiered, IsState-known, withdraw_optimized-IsTiered,
}
use uni_jit.Runtime.Osr.{OsrFrame, OsrEntryPlan, OsrArguments}
use uni_jit.Jit.Tiering.Invocation.{
  TieredInvocationResult, attempt, is_runtime_exit, is_assumption_exit, deoptimize, counted,
  recorded, chosen, tiered_invoke,
}
use uni_jit.Jit.Tiering.Osr.{
  TieredOsrEntryResult, entered, count_osr_attempt, count_osr_entry, count_osr_exit,
  count_deoptimization, handle_enter_osr, enter_published, tiered_enter_osr,
}

IsTier-hotness :
    (tier : CodeTier) (p : Published) (fallback : Option Published) (q q' : Profile)
    → q'.optimized_active ≡ q.optimized_active
    → (q.compilation_claimed ≡ false → q'.compilation_claimed ≡ false)
    → IsTier tier p fallback q
    → IsTier tier p fallback q'
IsTier-hotness CodeTier.no_tier p fallback q q' e c h = h
IsTier-hotness CodeTier.baseline p fallback q q' e c h = (h.0, h.1, e ∙ h.2)
IsTier-hotness CodeTier.optimized p fallback q q' e c h = (h.0, e ∙ h.1, c h.2, h.3, h.4)

pub IsState-hotness :
    (o : Option State) (q q' : Profile)
    → q'.optimized_active ≡ q.optimized_active
    → (q.compilation_claimed ≡ false → q'.compilation_claimed ≡ false)
    → IsState o q
    → IsState o q'
IsState-hotness none q q' e c h = (e ∙ h.0, c h.1)
IsState-hotness (some s) q q' e c h =
    (h.0, h.1, h.2, h.3, IsTier-hotness s.published.tier s.published s.fallback q q' e c h.4)

-- A claim touches neither the tier nor, but for the baseline tier, the claims.
baseline-claimed :
    (tier : CodeTier) (p : Published) (fallback : Option Published) (q q' : Profile)
    → is_baseline tier ≡ true
    → q'.optimized_active ≡ q.optimized_active
    → IsTier tier p fallback q
    → IsTier tier p fallback q'
baseline-claimed CodeTier.no_tier p fallback q q' b e h = h
baseline-claimed CodeTier.baseline p fallback q q' b e h = (h.0, h.1, e ∙ h.2)
baseline-claimed CodeTier.optimized p fallback q q' b e h = absurd (ground (arith, b))

try_begin-active :
    (q : Profile) → (try_begin_optimization q).0.optimized_active ≡ q.optimized_active
unfolding try_begin_optimization
try_begin-active q = ground arith

pub report-active :
    (q : Profile)
    → ((report_optimization_failure q).0.optimized_active ≡ q.optimized_active)
      × (q.compilation_claimed ≡ false
          → (report_optimization_failure q).0.compilation_claimed ≡ false)
unfolding report_optimization_failure rearm
report-active q = (ground arith, λ e. ground (arith, e))

pub try_begin-IsTiered :
    (t : TieredCode) → IsTiered t → IsTiered (tiered_try_begin_optimization t).0
try_begin-IsTiered t h = elim (Option-cases t.state) [
  | inl e ↦ subst IsTiered (sym (kept_none e)) h
  | inr (s, e) ↦ elim (Bool-cases (is_baseline s.published.tier)) [
    | inr other ↦ subst IsTiered (sym (kept s e other)) h
    | inl base ↦
        let known = IsState-known t.state s t.hotness e h in
        subst IsTiered (sym (claimed s e base)) (
          subst (λ o. IsState o (try_begin_optimization t.hotness).0) (sym e)
            (
              known.0,
              known.1,
              known.2,
              known.3,
              baseline-claimed s.published.tier s.published s.fallback t.hotness
                  (try_begin_optimization t.hotness).0 base (try_begin-active t.hotness) known.4,
            ))
  ]
]
  where
    kept_none : t.state ≡ none → (tiered_try_begin_optimization t).0 ≡ t
    kept_none e = unfold tiered_try_begin_optimization in ground (arith, e)

    kept :
        (s : State)
        → t.state ≡ some s
        → is_baseline s.published.tier ≡ false
        → (tiered_try_begin_optimization t).0 ≡ t
    kept s e other = unfold tiered_try_begin_optimization in ground (arith, e, other)

    claimed :
        (s : State)
        → t.state ≡ some s
        → is_baseline s.published.tier ≡ true
        → (tiered_try_begin_optimization t).0
          ≡ record t { hotness = (try_begin_optimization t.hotness).0 }
    claimed s e base = unfold tiered_try_begin_optimization in ground (arith, e, base)

-- What an invocation or an entry on the stack does to a well-formed tiered code, whatever runs.
deoptimize-IsTiered :
    {World : Type 0} (run : CompiledFunction → World → EvaluationResult × World)
    (policy : DeoptimizationPolicy) (p : Published) (result : TieredInvocationResult)
    (t : TieredCode) (world : World)
    → IsTiered t
    → IsTiered (deoptimize run policy p result t world).0
deoptimize-IsTiered run DeoptimizationPolicy.return_exit p result t world h = h
deoptimize-IsTiered run DeoptimizationPolicy.retry_baseline p result t world h = h

pub invocation-IsTiered :
    (t : TieredCode) → IsTiered t → IsTiered (record t { hotness = record_invocation t.hotness })
unfolding record_invocation
invocation-IsTiered t h =
    IsState-hotness t.state t.hotness (record_invocation t.hotness) refl (λ e. e) h

pub tiered_invoke-IsTiered :
    {World : Type 0} (run : CompiledFunction → World → EvaluationResult × World)
    (policy : DeoptimizationPolicy) (t : TieredCode) (world : World)
    → IsTiered t
    → IsTiered (tiered_invoke run policy t world).0
unfolding tiered_invoke
tiered_invoke-IsTiered {World} run policy t world h = invoked t.state
  where
    P : TieredCode × World × TieredInvocationResult → Type 0
    P r = IsTiered r.0

    kept : IsTiered (recorded run t)
    kept = invocation-IsTiered t h

    invoked : (o : Option State) → IsTiered (chosen run policy t world o).0
    invoked none = kept
    invoked (some s) =
        let (result, left) = invoke run s.published.active world in
        let n = s.published.generation in
        if_both P (not (is_valid s.published.active)) _ _ kept (
          if_both P
            (not (is_optimized s.published.tier)
              || not (is_assumption_exit s.published.active result))
            _ _ kept
            (deoptimize-IsTiered run policy s.published (attempt s.published result)
              (withdraw_optimized n (counted run (recorded run t))).0 left
              (withdraw_optimized-IsTiered n (counted run (recorded run t)) kept)))

pub tiered_enter_osr-IsTiered :
    {World : Type 0} (run : CompiledFunction → OsrArguments → World → EvaluationResult × World)
    (frame : OsrFrame) (plan : OsrEntryPlan) (t : TieredCode) (world : World)
    → IsTiered t
    → IsTiered (tiered_enter_osr run frame plan t world).0
unfolding tiered_enter_osr
tiered_enter_osr-IsTiered {World} run frame plan t world h = entered_from t.state
  where
    P : TieredCode × World × TieredOsrEntryResult → Type 0
    P r = IsTiered r.0

    entered_from :
        (o : Option State)
        → IsTiered (enter_published run frame plan (count_osr_attempt t) world o).0
    entered_from none = h
    entered_from (some s) =
        let (entry, left) = handle_enter_osr run frame plan s.published.active world in
        let exited = count_osr_exit (count_osr_entry (count_osr_attempt t)) in
        if_both P (not (is_valid s.published.active)) _ _ h (
          if_both P (not (entered entry)) _ _ h (
            if_both P (not (is_runtime_exit entry.result.status.code)) _ _ h (
              if_both IsTiered
                (is_optimized s.published.tier
                  && is_assumption_exit s.published.active entry.result)
                _ _
                (withdraw_optimized-IsTiered s.published.generation (count_deoptimization exited) h)
                h)))
