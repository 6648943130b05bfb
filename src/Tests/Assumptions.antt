-- ===== src/Tests/Assumptions.antt =====
-- Assumptions (src/runtime/assumption.cpp): two tokens, of which the second is invalid.
use uni_jit.Common.{
  ℕ, ◌≡◌, ◌↔◌, refl, Bool, true, not, false, none, some, [], ◌∷◌, count, ◌==◌, arith,
}
use uni_jit.Status.{is_ok}
use uni_jit.Runtime.Context.{ExitReason, ExecutionContext}
use uni_jit.Runtime.Assumption.{
  Assumption, SubscriptionResult, subscribe, unsubscribe, active_invocations, invalidate_begin,
  invalidate_end, Store, AssumptionDependency, AssumptionSet, add, duplicates, find, first_invalid,
  activate, activate_loop, release, is_active,
}
use uni_jit.Runtime.Assumption.Activation.{release-activate}
use uni_jit.Runtime.Assumption.Refusal.{activate-first_invalid}
use uni_jit.Runtime.Assumption.Set.{IsUnique, add-IsUnique, find-add}
use uni_jit.Runtime.Assumption.Quiescence.{Step, Steps, invalidate-quiesces}

abbrev dependency : ℕ → ℕ → AssumptionDependency
dependency token site = record { assumption = token; site = site; resume_offset = 0 }

abbrev two_dependencies : AssumptionSet
two_dependencies = dependency 1 10 ∷ dependency 2 20 ∷ []

abbrev tokens : Store Assumption
tokens t = record { valid = not (t == 2); active_contexts = 5 ∷ [] }

abbrev quiet_context : ExecutionContext
quiet_context = record {
  interrupt_requested = 0;
  exit_reason = ExitReason.no_exit;
  exit_site = 0;
  exit_value = 0;
  captured_values = [];
  safepoint_polls = 0;
  memory_regions = none;
  memory_region_count = 0;
}

release_example :
    (count 5
        (release
          (some 5)
          two_dependencies
          (activate (λ n. true) (some 5) two_dependencies tokens).1
          (activate (λ n. true) (some 5) two_dependencies tokens).0
          1).active_contexts
      ≡ 1)
    × ((release
          (some 5)
          two_dependencies
          (activate (λ n. true) (some 5) two_dependencies tokens).1
          (activate (λ n. true) (some 5) two_dependencies tokens).0
          1).valid
        ≡ true)
release_example = release-activate (λ n. true) (some 5) two_dependencies tokens 1 5

activate_status : is_ok (activate (λ n. true) (some 5) two_dependencies tokens).1.status ≡ true
unfolding activate activate_loop subscribe
activate_status = refl

activate_example :
    ((activate (λ n. true) (some 5) two_dependencies tokens).1.invalid_dependency
      ≡ first_invalid tokens two_dependencies)
    × ((is_active (activate (λ n. true) (some 5) two_dependencies tokens).1 ≡ true)
        ↔ (first_invalid tokens two_dependencies ≡ none))
activate_example = activate-first_invalid (λ n. true) 5 two_dependencies tokens activate_status

two_dependencies-IsUnique : IsUnique two_dependencies
two_dependencies-IsUnique =
    (((λ e. omega (arith, e), λ e. omega (arith, e)), _), omega arith, (_, omega arith, _))

add_example : IsUnique (add true (some 3) 30 0 two_dependencies).0
add_example = add-IsUnique true (some 3) 30 0 two_dependencies two_dependencies-IsUnique

add_accepts : is_ok (add true (some 3) 30 0 two_dependencies).1 ≡ true
unfolding add duplicates
add_accepts = refl

find-add_example : find 30 (add true (some 3) 30 0 two_dependencies).0 ≡ some (dependency 3 30)
find-add_example = find-add true 3 30 0 two_dependencies add_accepts

abbrev invalidated : Assumption
invalidated = record { valid = false; active_contexts = [] }

leaves : Steps (invalidate_begin (λ c. quiet_context) (tokens 1)).2 invalidated
unfolding invalidate_begin unsubscribe
leaves = Steps.then (Step.unsubscribes 5) Steps.done

quiesces_example :
    (invalidated.valid ≡ false)
    × (active_invocations invalidated ≡ 0)
    × ((allocated : Bool) (context : ℕ)
        → subscribe allocated context invalidated ≡ (SubscriptionResult.invalid, invalidated))
quiesces_example =
    invalidate-quiesces (λ c. quiet_context) (tokens 1) invalidated invalidated leaves
      (unfold invalidate_end active_invocations in refl) Steps.done
