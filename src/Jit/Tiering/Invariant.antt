-- ===== src/Jit/Tiering/Invariant.antt =====
-- What every operation of TieredCode keeps (src/jit/tiering.cpp).
use mathlib.Core.Path.{subst}
use uni_jit.Common.{
  ℕ, ◌≤◌, ◌≡◌, ◌⊎◌, inl, inr, refl, sym, ap, ◌∙◌, Bool, true, false, Option, none, some, arith,
  Bool-cases, Option-cases,
}
use uni_jit.Runtime.Assumption.{Assumption, Store}
use uni_jit.Jit.Handle.{CodeHandle, is_valid, assumption_count, assumptions_valid}
use uni_jit.Jit.Hotness.{
  Profile, maximum, next_generation, next_generation-fresh, reset_for_baseline, mark_optimized,
  mark_deoptimized, rearm,
}
use uni_jit.Jit.Tiering.{
  CodeTier, is_optimized, Published, State, TieredCode, baseline_state, generation_of, promoted,
  publish_baseline, signature_matches, is_stale, publish_optimized_over, publish_optimized,
  withdraw_from, withdraw_optimized,
}

-- The baseline tier runs the baseline and has no fallback. The optimized tier has the baseline of the
-- next generation to fall back to, its code is valid and has the baseline's signature, and no
-- compilation is claimed.
abbrev pub IsTier : CodeTier → Published → Option Published → Profile → Type 0
IsTier CodeTier.no_tier p fallback hotness = ⊥
IsTier CodeTier.baseline p fallback hotness =
    (p.active ≡ p.baseline) × (fallback ≡ none) × (hotness.optimized_active ≡ false)
IsTier CodeTier.optimized p fallback hotness =
    (fallback ≡ some (baseline_state p.baseline (next_generation p.generation)))
    × (hotness.optimized_active ≡ true)
    × (hotness.compilation_claimed ≡ false)
    × (is_valid p.active ≡ true)
    × (signature_matches p.active p.baseline ≡ true)

abbrev pub IsPublished : Published → Option Published → Profile → Type 0
IsPublished p fallback hotness =
    (is_valid p.baseline ≡ true)
    × (assumption_count p.baseline ≡ 0)
    × (1 ≤ p.generation)
    × (p.generation ≤ maximum)
    × IsTier p.tier p fallback hotness

abbrev pub IsState : Option State → Profile → Type 0
IsState none hotness = (hotness.optimized_active ≡ false) × (hotness.compilation_claimed ≡ false)
IsState (some s) hotness = IsPublished s.published s.fallback hotness

abbrev pub IsTiered : TieredCode → Type 0
IsTiered t = IsState t.state t.hotness

pub some_injective {ℓ} : {A : Type ℓ} {x y : A} → some x ≡ some y → x ≡ y
some_injective h = ground (arith, h)

generation_bound :
    (o : Option State) (hotness : Profile) → IsState o hotness → generation_of o ≤ maximum
generation_bound none hotness h = omega arith
generation_bound (some s) hotness h = h.3

publish_baseline-cases :
    (allocated : Bool) (handle : CodeHandle) (t : TieredCode)
    → ((publish_baseline allocated handle t).0 ≡ t)
      ⊎ ((is_valid handle ≡ true)
          × (assumption_count handle ≡ 0)
          × ((publish_baseline allocated handle t).0 ≡ record t {
            state = some (record {
              published = baseline_state handle (next_generation (generation_of t.state));
              fallback = none;
            });
            hotness = reset_for_baseline t.hotness;
          }))
unfolding publish_baseline
publish_baseline-cases allocated handle t = ground arith

pub publish_baseline-IsTiered :
    (allocated : Bool) (handle : CodeHandle) (t : TieredCode)
    → IsTiered t
    → IsTiered (publish_baseline allocated handle t).0
publish_baseline-IsTiered allocated handle t h = elim (publish_baseline-cases allocated handle t) [
  | inl same ↦ subst IsTiered (sym same) h
  | inr (valid, free, e) ↦
      let fresh =
        next_generation-fresh (generation_of t.state) (generation_bound t.state t.hotness h) in
      subst IsTiered (sym e)
        (valid, free, fresh.1, fresh.0, (refl, refl, (unfold reset_for_baseline in refl)))
]

pub publish_optimized_over-cases :
    (allocated : Bool) (handle : CodeHandle) (expected : ℕ) (t : TieredCode) (previous : Published)
    → ((publish_optimized_over allocated handle expected t previous).0 ≡ t)
      ⊎ ((signature_matches handle previous.baseline ≡ true)
          × (is_stale expected previous ≡ false)
          × ((publish_optimized_over allocated handle expected t previous).0.state
              ≡ some (promoted handle previous))
          × ((publish_optimized_over allocated handle expected t previous).0.hotness
              ≡ mark_optimized t.hotness))
unfolding publish_optimized_over
publish_optimized_over-cases allocated handle expected t previous = ground arith

pub publish_optimized-cases :
    (store : Store Assumption) (allocated : Bool) (handle : CodeHandle) (expected : ℕ)
    (t : TieredCode)
    → ((publish_optimized store allocated handle expected t).0 ≡ t)
      ⊎ ((s : State) × (t.state ≡ some s)
          × (is_valid handle ≡ true)
          × (publish_optimized store allocated handle expected t
              ≡ publish_optimized_over allocated handle expected t s.published))
unfolding publish_optimized
publish_optimized-cases store allocated handle expected t = elim (Option-cases t.state) [
  | inl e ↦ inl (ground (arith, e))
  | inr (s, e) ↦ elim (Bool-cases (is_valid handle)) [
    | inr empty ↦ inl (ground (arith, empty))
    | inl valid ↦ elim (Bool-cases (assumptions_valid store handle)) [
      | inr broken ↦ inl (ground (arith, broken))
      | inl holds ↦ inr (s, e, valid, ground (arith, e, valid, holds))
    ]
  ]
]

IsState-same :
    {o o' : Option State} {p p' : Profile} → o' ≡ o → p' ≡ p → IsState o p → IsState o' p'
IsState-same {o} {o'} {p} {p'} e f h =
    subst (λ q. IsState o' q) (sym f) (subst (λ r. IsState r p) (sym e) h)

pub IsState-known :
    (o : Option State) (s : State) (p : Profile)
    → o ≡ some s
    → IsState o p
    → IsPublished s.published s.fallback p
IsState-known o s p e h = subst (λ r. IsState r p) e h

pub publish_optimized-IsTiered :
    (store : Store Assumption) (allocated : Bool) (handle : CodeHandle) (expected : ℕ)
    (t : TieredCode)
    → IsTiered t
    → IsTiered (publish_optimized store allocated handle expected t).0
publish_optimized-IsTiered store allocated handle expected t h =
    elim (publish_optimized-cases store allocated handle expected t) [
      | inl same ↦ subst IsTiered (sym same) h
      | inr (s, e, valid, over) ↦
          elim (publish_optimized_over-cases allocated handle expected t s.published) [
            | inl same ↦ subst IsTiered (sym (ap (λ p. p.0) over ∙ same)) h
            | inr (matches, current, stored, marked) ↦
                let known = IsState-known t.state s t.hotness e h in
                let fresh = next_generation-fresh s.published.generation known.3 in
                IsState-same (ap (λ p. p.0.state) over ∙ stored)
                  (ap (λ p. p.0.hotness) over ∙ marked)
                  (
                    known.0,
                    known.1,
                    fresh.1,
                    fresh.0,
                    (
                      refl,
                      (unfold mark_optimized in refl),
                      (unfold mark_optimized in refl),
                      valid,
                      matches,
                    ),
                  )
          ]
    ]

pub withdraw_optimized-cases :
    (expected : ℕ) (t : TieredCode)
    → (withdraw_optimized expected t ≡ (t, false))
      ⊎ ((s : State) × (f : Published) × (t.state ≡ some s)
          × (s.fallback ≡ some f)
          × (is_optimized s.published.tier ≡ true)
          × (is_stale expected s.published ≡ false)
          × ((withdraw_optimized expected t).0.state
              ≡ some (record { published = f; fallback = none }))
          × ((withdraw_optimized expected t).0.hotness ≡ mark_deoptimized t.hotness)
          × ((withdraw_optimized expected t).1 ≡ true))
unfolding withdraw_optimized withdraw_from
withdraw_optimized-cases expected t = elim (Option-cases t.state) [
  | inl e ↦ inl (ground (arith, e))
  | inr (s, e) ↦ elim (Option-cases s.fallback) [
    | inl none_left ↦ inl (ground (arith, e, none_left))
    | inr (f, k) ↦ elim (Bool-cases (is_optimized s.published.tier)) [
      | inr other ↦ inl (ground (arith, e, k, other))
      | inl optimized ↦ elim (Bool-cases (is_stale expected s.published)) [
        | inl stale ↦ inl (ground (arith, e, k, stale))
        | inr current ↦ inr (
          s,
          f,
          e,
          k,
          optimized,
          current,
          ground (arith, e, k, optimized, current),
          ground (arith, e, k, optimized, current),
          ground (arith, e, k, optimized, current),
        )
      ]
    ]
  ]
]

-- The optimized tier's own fallback.
pub optimized_fallback :
    (tier : CodeTier) (p : Published) (fallback : Option Published) (hotness : Profile)
    → is_optimized tier ≡ true
    → IsTier tier p fallback hotness
    → fallback ≡ some (baseline_state p.baseline (next_generation p.generation))
optimized_fallback CodeTier.no_tier p fallback hotness e h = absurd h
optimized_fallback CodeTier.baseline p fallback hotness e h = absurd (ground (arith, e))
optimized_fallback CodeTier.optimized p fallback hotness e h = h.0

pub withdraw_optimized-IsTiered :
    (expected : ℕ) (t : TieredCode) → IsTiered t → IsTiered (withdraw_optimized expected t).0
withdraw_optimized-IsTiered expected t h = elim (withdraw_optimized-cases expected t) [
  | inl same ↦ subst IsTiered (sym (ap (λ p. p.0) same)) h
  | inr (s, f, e, k, optimized, current, stored, marked, done) ↦
      let known = IsState-known t.state s t.hotness e h in
      let fresh = next_generation-fresh s.published.generation known.3 in
      let expected_fallback : f
          ≡ baseline_state s.published.baseline (next_generation s.published.generation) =
        some_injective (
          sym k
          ∙ optimized_fallback s.published.tier s.published s.fallback t.hotness optimized
              known.4) in
      IsState-same
        (stored
          ∙ ap (λ (g : Published). some (record { published = g; fallback = none }))
              expected_fallback)
        marked
        (known.0, known.1, fresh.1, fresh.0, (refl, refl, (unfold mark_deoptimized rearm in refl)))
]
