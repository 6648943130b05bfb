-- ===== src/Runtime/Assumption/Quiescence.antt =====
-- Invalidation waits for the active invocations (src/runtime/assumption.cpp).
use uni_jit.Common.{ℕ, Bool, true, false, List, [], ◌∷◌, ◌≡◌, refl, length, erase_first, arith}
use uni_jit.Runtime.Context.{ExecutionContext}
use uni_jit.Runtime.Assumption.Activation.{subscribe-invalid}
use uni_jit.Runtime.Assumption.{
  Assumption, SubscriptionResult, subscribe, unsubscribe, active_invocations, invalidate_begin,
  invalidate_end, Store,
}

-- What can happen to an assumption while the mutex is free: the steps of any number of threads.
pub data Step : Assumption → Assumption → Type 0 where
  subscribes :
      (allocated : Bool) (context : ℕ) {a : Assumption} → Step a (subscribe allocated context a).1
  unsubscribes : (context : ℕ) {a : Assumption} → Step a (unsubscribe context a)
  invalidates :
      (contexts : Store ExecutionContext) {a : Assumption} → Step a (invalidate_begin contexts a).2

pub data Steps : Assumption → Assumption → Type 0 where
  done : {a : Assumption} → Steps a a
  then : {a b c : Assumption} → Step a b → Steps b c → Steps a c

erase_first-empty : (x : ℕ) (xs : List ℕ) → length xs ≡ 0 → length (erase_first x xs) ≡ 0
erase_first-empty x [] h = refl
erase_first-empty x (y ∷ xs) h = absurd (omega (arith, h))

-- An invalid assumption stays invalid, and takes no new invocation.
Step-invalid :
    {a b : Assumption}
    → Step a b
    → a.valid ≡ false
    → (b.valid ≡ false) × (active_invocations a ≡ 0 → active_invocations b ≡ 0)
unfolding subscribe unsubscribe invalidate_begin active_invocations
Step-invalid {a} (Step.subscribes allocated context) h = ground (arith, h)
Step-invalid {a} (Step.unsubscribes context) h = (h, erase_first-empty context a.active_contexts)
Step-invalid {a} (Step.invalidates contexts) h = (refl, λ e. e)

Steps-invalid :
    {a b : Assumption}
    → Steps a b
    → a.valid ≡ false
    → (b.valid ≡ false) × (active_invocations a ≡ 0 → active_invocations b ≡ 0)
Steps-invalid Steps.done h = (h, λ e. e)
Steps-invalid (Steps.then first rest) h =
    let one = Step-invalid first h in
    let more = Steps-invalid rest one.0 in (more.0, λ e. more.1 (one.1 e))

invalidate_end-empty : (a : Assumption) → invalidate_end a ≡ true → active_invocations a ≡ 0
unfolding invalidate_end
invalidate_end-empty a h = ground (arith, h)

-- Once an invalidation returns, the assumption is invalid and no invocation is active, then and ever
-- after, whatever steps other threads take in between and afterwards, and every subscription is refused.
pub invalidate-quiesces :
    (contexts : Store ExecutionContext) (a b c : Assumption)
    → Steps (invalidate_begin contexts a).2 b
    → invalidate_end b ≡ true
    → Steps b c
    → (c.valid ≡ false)
      × (active_invocations c ≡ 0)
      × ((allocated : Bool) (context : ℕ)
          → subscribe allocated context c ≡ (SubscriptionResult.invalid, c))
invalidate-quiesces contexts a b c waiting ended after =
    let stopped = Steps-invalid waiting (unfold invalidate_begin in refl) in
    let final = Steps-invalid after stopped.0 in
    (
      final.0,
      final.1 (invalidate_end-empty b ended),
      λ allocated context. subscribe-invalid allocated context c final.0,
    )
