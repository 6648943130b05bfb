-- ===== src/Jit/Tiering/Promotion.antt =====
-- The life of a TieredCode: what is reachable from a new one (src/jit/tiering.cpp).
use uni_jit.Common.{ℕ, ◌≡◌, ◌≢◌, inl, inr, refl, sym, ap, ◌∙◌, Bool, true, none, some, arith}
use uni_jit.Runtime.Assumption.{Assumption, Store}
use uni_jit.Jit.Handle.{CodeHandle, CompiledFunction, EvaluationResult}
use uni_jit.Jit.Hotness.{
  TieringThresholds, next_generation, record_invocation, record_backedges,
  report_optimization_failure, saturating_add,
}
use uni_jit.Jit.Tiering.{
  DeoptimizationPolicy, is_optimized, Published, State, TieredCode, new_tiered_code, baseline_state,
  publish_baseline, publish_optimized, withdraw_optimized, tiered_record_backedges,
  tiered_try_begin_optimization, tiered_report_optimization_failure,
}
use uni_jit.Jit.Tiering.Invariant.{
  IsTiered, some_injective, IsState-known, publish_baseline-IsTiered, publish_optimized-IsTiered,
  withdraw_optimized-IsTiered, withdraw_optimized-cases, optimized_fallback,
}
use uni_jit.Runtime.Osr.{OsrFrame, OsrEntryPlan, OsrArguments}
use uni_jit.Jit.Tiering.Invocation.{tiered_invoke}
use uni_jit.Jit.Tiering.Osr.{
  count_osr_attempt, count_osr_entry, count_osr_exit, count_deoptimization, tiered_enter_osr,
}
use uni_jit.Jit.Tiering.Kept.{
  IsState-hotness, report-active, try_begin-IsTiered, invocation-IsTiered, tiered_invoke-IsTiered,
  tiered_enter_osr-IsTiered,
}

-- The operations of any number of threads, in some order. An invocation and an entry on the stack are
-- also the steps that they are made of, so that other threads may come in between; machine code that
-- runs in between changes no tiered code.
pub data Step : TieredCode → TieredCode → Type 1 where
  publishes_baseline :
      (allocated : Bool) (handle : CodeHandle) {t : TieredCode}
      → Step t (publish_baseline allocated handle t).0
  publishes_optimized :
      (store : Store Assumption) (allocated : Bool) (handle : CodeHandle) (expected : ℕ)
      {t : TieredCode}
      → Step t (publish_optimized store allocated handle expected t).0
  withdraws : (expected : ℕ) {t : TieredCode} → Step t (withdraw_optimized expected t).0
  records_backedges : (count : ℕ) {t : TieredCode} → Step t (tiered_record_backedges count t)
  records_invocation :
      {t : TieredCode} → Step t (record t { hotness = record_invocation t.hotness })
  tries : {t : TieredCode} → Step t (tiered_try_begin_optimization t).0
  reports : {t : TieredCode} → Step t (tiered_report_optimization_failure t).0
  counts_deoptimization : {t : TieredCode} → Step t (count_deoptimization t)
  counts_retry :
      {t : TieredCode}
      → Step t (record t { baseline_retries = saturating_add t.baseline_retries 1 })
  counts_osr_attempt : {t : TieredCode} → Step t (count_osr_attempt t)
  counts_osr_entry : {t : TieredCode} → Step t (count_osr_entry t)
  counts_osr_exit : {t : TieredCode} → Step t (count_osr_exit t)
  invokes :
      {World : Type 0} (run : CompiledFunction → World → EvaluationResult × World)
      (policy : DeoptimizationPolicy) (world : World) {t : TieredCode}
      → Step t (tiered_invoke run policy t world).0
  enters :
      {World : Type 0} (run : CompiledFunction → OsrArguments → World → EvaluationResult × World)
      (frame : OsrFrame) (plan : OsrEntryPlan) (world : World) {t : TieredCode}
      → Step t (tiered_enter_osr run frame plan t world).0

pub data Reachable (thresholds : TieringThresholds) : TieredCode → Type 1 where
  start : Reachable thresholds (new_tiered_code thresholds)
  then : {t t' : TieredCode} → Reachable thresholds t → Step t t' → Reachable thresholds t'

Step-IsTiered : {t t' : TieredCode} → Step t t' → IsTiered t → IsTiered t'
unfolding tiered_record_backedges tiered_report_optimization_failure record_backedges
    record_invocation
Step-IsTiered {t} (Step.publishes_baseline allocated handle) h =
    publish_baseline-IsTiered allocated handle t h
Step-IsTiered {t} (Step.publishes_optimized store allocated handle expected) h =
    publish_optimized-IsTiered store allocated handle expected t h
Step-IsTiered {t} (Step.withdraws expected) h = withdraw_optimized-IsTiered expected t h
Step-IsTiered {t} (Step.records_backedges count) h =
    IsState-hotness t.state t.hotness (record_backedges count t.hotness) refl (λ e. e) h
Step-IsTiered {t} Step.records_invocation h = invocation-IsTiered t h
Step-IsTiered {t} Step.tries h = try_begin-IsTiered t h
Step-IsTiered {t} Step.reports h =
    let active = report-active t.hotness in
    IsState-hotness t.state t.hotness (report_optimization_failure t.hotness).0 active.0 active.1 h
Step-IsTiered Step.counts_deoptimization h = h
Step-IsTiered Step.counts_retry h = h
Step-IsTiered Step.counts_osr_attempt h = h
Step-IsTiered Step.counts_osr_entry h = h
Step-IsTiered Step.counts_osr_exit h = h
Step-IsTiered {t} (Step.invokes run policy world) h = tiered_invoke-IsTiered run policy t world h
Step-IsTiered {t} (Step.enters run frame plan world) h =
    tiered_enter_osr-IsTiered run frame plan t world h

-- Whatever publications, withdrawals, invocations, entries on the stack, claims and reports run, in whatever
-- order, a tiered code stays well formed. Its baseline is a valid handle that rests on
-- no assumption, its generation is a word that is not 0, and its tier is one of two. The baseline tier runs the baseline;
-- the optimized tier runs valid code of the same signature, has the baseline to fall back to under the next generation, and
-- no compilation is claimed.
pub Reachable-IsTiered :
    {thresholds : TieringThresholds} {t : TieredCode} → Reachable thresholds t → IsTiered t
unfolding new_tiered_code
Reachable-IsTiered Reachable.start = (refl, refl)
Reachable-IsTiered (Reachable.then before step) = Step-IsTiered step (Reachable-IsTiered before)

-- A withdrawal that names a generation takes back the optimized code of that generation and no other: if it does
-- anything, the code was optimized and of that generation, and the baseline is active again under the next generation.
pub withdraw_optimized-restores :
    (expected : ℕ) (t : TieredCode)
    → IsTiered t
    → expected ≢ 0
    → (withdraw_optimized expected t).1 ≡ true
    → (s : State) × (t.state ≡ some s)
      × (is_optimized s.published.tier ≡ true)
      × (s.published.generation ≡ expected)
      × ((withdraw_optimized expected t).0.state
          ≡ some (record {
            published = baseline_state s.published.baseline (next_generation expected);
            fallback = none;
          }))
withdraw_optimized-restores expected t h positive done =
    elim (withdraw_optimized-cases expected t) [
      | inl same ↦ absurd (ground (arith, ap (λ p. p.1) same, done))
      | inr (s, f, e, k, optimized, current, stored, marked, _) ↦
          let known = IsState-known t.state s t.hotness e h in
          let same_generation : s.published.generation ≡ expected =
            ground (arith, current, positive) in
          let expected_fallback = some_injective (
            sym k
            ∙ optimized_fallback s.published.tier s.published s.fallback t.hotness optimized
                known.4) in
          (
            s,
            e,
            optimized,
            same_generation,
            stored
                ∙ ap (λ (g : Published). some (record { published = g; fallback = none }))
                    expected_fallback
                ∙ ap
                    (λ (n : ℕ). some (record {
                      published = baseline_state s.published.baseline (next_generation n);
                      fallback = none;
                    }))
                    same_generation,
          )
    ]
