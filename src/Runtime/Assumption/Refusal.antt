-- ===== src/Runtime/Assumption/Refusal.antt =====
-- Which dependency an activation refuses (src/runtime/assumption.cpp).
use mathlib.Core.Path.{ap₂}
use uni_jit.Common.{
  ℕ, ◌+◌, Bool, true, false, not, Option, none, some, [], ◌∷◌, ◌≡◌, ◌↔◌, refl, sym, ap, ◌∙◌,
  if◌then◌else◌, arith, Bool-cases, inl, inr,
}
use uni_jit.Status.{is_ok}
use uni_jit.Runtime.Assumption.{
  Assumption, SubscriptionResult, subscribe, Store, AssumptionDependency, AssumptionSet,
  AssumptionActivation, activate_loop, activate, first_invalid, is_active,
}
use uni_jit.Runtime.Assumption.Activation.{
  subscribe-invalid, subscribe-short, subscribe-subscribed, subscribed_to, continue,
  activate_loop-step,
}

-- Validity is all that first_invalid reads.
first_invalid-same :
    (store store' : Store Assumption) (ds : AssumptionSet)
    → ((t : ℕ) → (store' t).valid ≡ (store t).valid)
    → first_invalid store' ds ≡ first_invalid store ds
unfolding first_invalid
first_invalid-same store store' [] same = refl
first_invalid-same store store' (d ∷ ds) same =
    ap₂ (λ (b : Bool) (o : Option AssumptionDependency). if b then some d else o)
      (ap not (same d.assumption)) (first_invalid-same store store' ds same)

-- Whether a dependency is refused, and which, agrees with first_invalid.
abbrev Refuses : Store Assumption → AssumptionSet → AssumptionActivation → Type 0
Refuses store ds activation =
    is_ok activation.status ≡ true → activation.invalid_dependency ≡ first_invalid store ds

first_invalid-here :
    (store : Store Assumption) (d : AssumptionDependency) (ds : AssumptionSet)
    → (store d.assumption).valid ≡ false
    → first_invalid store (d ∷ ds) ≡ some d
unfolding first_invalid
first_invalid-here store d ds h =
    ap (λ (b : Bool). if not b then some d else first_invalid store ds) h

first_invalid-later :
    (store : Store Assumption) (d : AssumptionDependency) (ds : AssumptionSet)
    → (store d.assumption).valid ≡ true
    → first_invalid store (d ∷ ds) ≡ first_invalid store ds
unfolding first_invalid
first_invalid-later store d ds h =
    ap (λ (b : Bool). if not b then some d else first_invalid store ds) h

activate_loop-Refuses :
    (allocated : ℕ → Bool) (context : ℕ) (ds : AssumptionSet) (n : ℕ) (store : Store Assumption)
    → Refuses store ds (activate_loop allocated context ds n store).1
activate_loop-Refuses allocated context [] n store =
    unfold activate_loop first_invalid in (λ h. refl)
activate_loop-Refuses allocated context (d ∷ ds) n store =
    elim (Bool-cases (store d.assumption).valid) [
      | inl valid ↦ elim (Bool-cases (allocated n)) [
        | inl more ↦
            stepped (subscribe-subscribed (allocated n) context (store d.assumption) valid more)
              λ h.
                activate_loop-Refuses allocated context ds (n + 1)
                  (subscribed_to context store d.assumption) h
                ∙ first_invalid-same store (subscribed_to context store d.assumption) ds
                    (λ t. ground arith)
                ∙ sym (first_invalid-later store d ds valid)
        | inr short ↦
            stepped (subscribe-short (allocated n) context (store d.assumption) valid short)
              λ h. absurd (ground (arith, h))
      ]
      | inr invalid ↦
          stepped (subscribe-invalid (allocated n) context (store d.assumption) invalid)
            λ h. sym (first_invalid-here store d ds invalid)
    ]
  where
    stepped :
        {p : SubscriptionResult × Assumption}
        → subscribe (allocated n) context (store d.assumption) ≡ p
        → Refuses store (d ∷ ds) (continue allocated context d ds n store p).1
        → Refuses store (d ∷ ds) (activate_loop allocated context (d ∷ ds) n store).1
    stepped {p} e h = rw (activate_loop-step allocated context d ds n store p e) h

-- An activation of a context that does not run short of memory refuses exactly when an assumption of the set is
-- invalid, and names the first such dependency, as first_invalid does.
pub activate-first_invalid :
    (allocated : ℕ → Bool) (context : ℕ) (dependencies : AssumptionSet) (store : Store Assumption)
    → is_ok (activate allocated (some context) dependencies store).1.status ≡ true
    → ((activate allocated (some context) dependencies store).1.invalid_dependency
        ≡ first_invalid store dependencies)
      × ((is_active (activate allocated (some context) dependencies store).1 ≡ true)
          ↔ (first_invalid store dependencies ≡ none))
unfolding activate is_active
activate-first_invalid allocated context dependencies store h =
    let e = activate_loop-Refuses allocated context dependencies 0 store h in
    (e, ground (arith, e, h))
