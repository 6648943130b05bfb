-- ===== src/Runtime/Assumption.antt =====
-- include/unijit/runtime/assumption.h and src/runtime/assumption.cpp: speculative assumptions and
-- the invocations that depend on them. An assumption and a context are named by an address; the
-- objects are found in a store, a function from the address. What a push_back does when memory is
-- short is the Boolean `allocated`. A mutex makes each operation one step, but for invalidate, which
-- waits: its two halves are `invalidate_begin` and `invalidate_end`.
pub mod Activation
pub mod Refusal
pub mod Set
pub mod Quiescence
use uni_jit.Common.{
  ℕ, zero, suc, ◌+◌, ◌-◌, ◌^◌, Bool, false, not, ◌||◌, Option, none, some, List, [], ◌∷◌, ◌++◌,
  length, get_elem?, find_if, erase_first, ltb, ◌==◌, if◌then◌else◌,
}
use uni_jit.Status.{StatusCode, Status, status, ok_status, is_ok}
use uni_jit.Runtime.Context.{ExecutionContext, request_deoptimization_wakeup}

pub record Assumption : Type 0 where
  pub valid : Bool
  pub active_contexts : List ℕ

pub data SubscriptionResult : Type 0 where
  subscribed invalid resource_exhausted : SubscriptionResult

unfoldable pub subscribe : Bool → ℕ → Assumption → SubscriptionResult × Assumption
subscribe allocated context a =
    if not a.valid
    then (SubscriptionResult.invalid, a)
    else if allocated
    then (
      SubscriptionResult.subscribed,
      record a { active_contexts = a.active_contexts ++ context ∷ [] },
    )
    else (SubscriptionResult.resource_exhausted, a)

-- The notification of the waiting invalidations is the state that they wait for.
unfoldable pub unsubscribe : ℕ → Assumption → Assumption
unsubscribe context a = record a { active_contexts = erase_first context a.active_contexts }

unfoldable pub active_invocations : Assumption → ℕ
active_invocations a = length a.active_contexts

abbrev pub Store {ℓ} : Type ℓ → Type ℓ
Store A = ℕ → A

abbrev pub update {ℓ} : {A : Type ℓ} → Store A → ℕ → A → Store A
update store address x a = if a == address then x else store a

abbrev pub wake_all : List ℕ → Store ExecutionContext → Store ExecutionContext
wake_all [] contexts = contexts
wake_all (c ∷ cs) contexts =
    wake_all cs (update contexts c (request_deoptimization_wakeup (contexts c)))

-- Up to the wait: the flag, and a wakeup for each active context.
unfoldable pub invalidate_begin :
    Store ExecutionContext → Assumption → Bool × Store ExecutionContext × Assumption
invalidate_begin contexts a =
    (a.valid, wake_all a.active_contexts contexts, record a { valid = false })

-- Whether the wait is over.
unfoldable pub invalidate_end : Assumption → Bool
unfolding active_invocations
invalidate_end a = active_invocations a == 0

pub record AssumptionDependency : Type 0 where
  pub assumption : ℕ
  pub site : ℕ
  pub resume_offset : ℕ

abbrev pub AssumptionSet : Type 0
AssumptionSet = List AssumptionDependency

unfoldable pub duplicates : ℕ → ℕ → AssumptionDependency → Bool
duplicates site pointer dependency = dependency.site == site || dependency.assumption == pointer

-- `null` is the null pointer.
unfoldable pub add : Bool → Option ℕ → ℕ → ℕ → AssumptionSet → AssumptionSet × Status
add allocated none site resume_offset dependencies =
    (dependencies, status StatusCode.invalid_argument site)
add allocated (some pointer) site resume_offset dependencies =
    if ltb (2 ^ 63 - 1) site
    then (dependencies, status StatusCode.invalid_argument site)
    else elim (find_if (duplicates site pointer) dependencies) [
      | some duplicate ↦ (dependencies, status StatusCode.invalid_argument site)
      | none ↦
          if allocated
          then (
            dependencies
                ++ record { assumption = pointer; site = site; resume_offset = resume_offset } ∷ [],
            ok_status,
          )
          else (dependencies, status StatusCode.resource_exhausted site)
    ]

unfoldable pub find : ℕ → AssumptionSet → Option AssumptionDependency
find site dependencies = find_if (λ candidate. candidate.site == site) dependencies

unfoldable pub first_invalid : Store Assumption → AssumptionSet → Option AssumptionDependency
first_invalid store dependencies =
    find_if (λ candidate. not (store candidate.assumption).valid) dependencies

pub record AssumptionActivation : Type 0 where
  pub subscription_count : ℕ
  pub invalid_dependency : Option AssumptionDependency
  pub status : Status

unfoldable pub is_active : AssumptionActivation → Bool
is_active activation = elim activation.invalid_dependency [
  | none ↦ is_ok activation.status
  | some dependency ↦ false
]

-- The body of the constructor's loop after the subscription; `next` is the rest of the loop.
abbrev pub after_subscription :
    AssumptionDependency
    → ℕ
    → Store Assumption
    → Store Assumption × AssumptionActivation
    → SubscriptionResult
    → Store Assumption × AssumptionActivation
after_subscription dependency count store next SubscriptionResult.subscribed = next
after_subscription dependency count store next SubscriptionResult.invalid = (
  store,
  record { subscription_count = count; invalid_dependency = some dependency; status = ok_status },
)
after_subscription dependency count store next SubscriptionResult.resource_exhausted = (
  store,
  record {
    subscription_count = count;
    invalid_dependency = none;
    status = status StatusCode.resource_exhausted dependency.site;
  },
)

-- The loop of the constructor, with `count` subscriptions made; null dependencies and contexts are
-- refused before it. `allocated` says which of the subscriptions find memory.
unfoldable pub activate_loop :
    (ℕ → Bool) → ℕ → AssumptionSet → ℕ → Store Assumption → Store Assumption × AssumptionActivation
activate_loop allocated context [] count store =
    (store, record { subscription_count = count; invalid_dependency = none; status = ok_status })
activate_loop allocated context (dependency ∷ rest) count store =
    let (result, a) = subscribe (allocated count) context (store dependency.assumption) in
    let store' = update store dependency.assumption a in
    let next = activate_loop allocated context rest (count + 1) store' in
    after_subscription dependency count store' next result

-- `none` is a null set or a null context.
unfoldable pub activate :
    (ℕ → Bool)
    → Option ℕ
    → AssumptionSet
    → Store Assumption
    → Store Assumption × AssumptionActivation
activate allocated none dependencies store = (
  store,
  record {
    subscription_count = 0;
    invalid_dependency = none;
    status = status StatusCode.invalid_argument 0;
  },
)
activate allocated (some context) dependencies store =
    activate_loop allocated context dependencies 0 store

-- The loop of the destructor.
unfoldable pub release_loop : ℕ → AssumptionSet → ℕ → Store Assumption → Store Assumption
release_loop context dependencies zero store = store
release_loop context dependencies (suc count) store = elim (get_elem? dependencies count) [
  | none ↦ store
  | some dependency ↦
      release_loop context dependencies count
        (update store dependency.assumption (unsubscribe context (store dependency.assumption)))
]

unfoldable pub release :
    Option ℕ → AssumptionSet → AssumptionActivation → Store Assumption → Store Assumption
release none dependencies activation store = store
release (some context) dependencies activation store =
    release_loop context dependencies activation.subscription_count store
