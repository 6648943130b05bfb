-- ===== src/Runtime/Assumption/Activation.antt =====
-- An activation of a set of assumptions, and its end (src/runtime/assumption.cpp).
use uni_jit.Common.{
  ℕ, zero, suc, ◌+◌, ◌-◌, ◌≤◌, ◌<◌, Bool, true, false, Option, none, some, [], ◌∷◌, ◌++◌, ◌≡◌, refl,
  ap, ◌∙◌, length, get_elem?, count, count-append, count-erase_first, ◌==◌, if◌then◌else◌, arith,
  Bool-cases, inl, inr,
}
use uni_jit.Status.{StatusCode, Status, status, ok_status}
use uni_jit.Runtime.Assumption.{
  Assumption, SubscriptionResult, subscribe, unsubscribe, Store, update, AssumptionDependency,
  AssumptionSet, AssumptionActivation, after_subscription, activate_loop, activate, release_loop,
  release,
}

-- How many of the first `n` dependencies are on an assumption.
abbrev uses : ℕ → AssumptionSet → ℕ → ℕ
uses t [] n = 0
uses t (d ∷ ds) zero = 0
uses t (d ∷ ds) (suc n) = (if d.assumption == t then 1 else 0) + uses t ds n

uses-zero : (t : ℕ) (ds : AssumptionSet) → uses t ds 0 ≡ 0
uses-zero t [] = refl
uses-zero t (d ∷ ds) = refl

some_injective {ℓ} : {A : Type ℓ} {x y : A} → some x ≡ some y → x ≡ y
some_injective h = ground (arith, h)

uses-suc :
    (t : ℕ) (ds : AssumptionSet) (n : ℕ) (d : AssumptionDependency)
    → get_elem? ds n ≡ some d
    → uses t ds (suc n) ≡ uses t ds n + (if d.assumption == t then 1 else 0)
uses-suc t [] n d h = absurd (ground (arith, h))
uses-suc t (e ∷ ds) zero d h = omega (
  arith,
  ap {B = ℕ} (λ (o : AssumptionDependency). if o.assumption == t then 1 else 0) (some_injective h),
  uses-zero t ds,
)
uses-suc t (e ∷ ds) (suc n) d h = omega (arith, uses-suc t ds n d h)

-- One turn of the destructor's loop, as a function of the dependency found.
abbrev released :
    ℕ → AssumptionSet → ℕ → Store Assumption → Option AssumptionDependency → Store Assumption
released context ds n store none = store
released context ds n store (some d) =
    release_loop context ds n (update store d.assumption (unsubscribe context (store d.assumption)))

update-unsubscribe-valid :
    (context : ℕ) (store : Store Assumption) (a t : ℕ)
    → (update store a (unsubscribe context (store a)) t).valid ≡ (store t).valid
unfolding unsubscribe
update-unsubscribe-valid context store a t = ground arith

-- How often a context is active in an assumption of a store.
abbrev active : Store Assumption → ℕ → ℕ → ℕ
active store t x = count x (store t).active_contexts

-- The store with one more subscription.
abbrev pub subscribed_to : ℕ → Store Assumption → ℕ → Store Assumption
subscribed_to context store t =
    update store t
      (record (store t) { active_contexts = (store t).active_contexts ++ context ∷ [] })

active-subscribed_to :
    (context : ℕ) (store : Store Assumption) (a t x : ℕ)
    → active (subscribed_to context store a) t x
      ≡ active store t x + (if x == context then (if a == t then 1 else 0) else 0)
active-subscribed_to context store a t x =
    ground (arith, count-append x (store t).active_contexts (context ∷ []))

active-unsubscribe :
    (context : ℕ) (store : Store Assumption) (a t x : ℕ)
    → active (update store a (unsubscribe context (store a))) t x
      ≡ active store t x - (if x == context then (if a == t then 1 else 0) else 0)
unfolding unsubscribe
active-unsubscribe context store a t x =
    ground (arith, count-erase_first x context (store t).active_contexts)

pub subscribe-invalid :
    (allocated : Bool) (context : ℕ) (a : Assumption)
    → a.valid ≡ false
    → subscribe allocated context a ≡ (SubscriptionResult.invalid, a)
unfolding subscribe
subscribe-invalid allocated context a h = ground arith

pub subscribe-short :
    (allocated : Bool) (context : ℕ) (a : Assumption)
    → a.valid ≡ true
    → allocated ≡ false
    → subscribe allocated context a ≡ (SubscriptionResult.resource_exhausted, a)
unfolding subscribe
subscribe-short allocated context a h k = ground arith

pub subscribe-subscribed :
    (allocated : Bool) (context : ℕ) (a : Assumption)
    → a.valid ≡ true
    → allocated ≡ true
    → subscribe allocated context a ≡ (
      SubscriptionResult.subscribed,
      record a { active_contexts = a.active_contexts ++ context ∷ [] },
    )
unfolding subscribe
subscribe-subscribed allocated context a h k = ground arith

module _ (allocated : ℕ → Bool) (context : ℕ) (d : AssumptionDependency) (rest : AssumptionSet)
    (n : ℕ) (store : Store Assumption) where
  -- The loop, as a function of the subscription's result.
  abbrev pub continue : SubscriptionResult × Assumption → Store Assumption × AssumptionActivation
  continue (result, a) =
      let store' = update store d.assumption a in
      after_subscription d n store' (activate_loop allocated context rest (n + 1) store') result

  pub activate_loop-step :
      (p : SubscriptionResult × Assumption)
      → subscribe (allocated n) context (store d.assumption) ≡ p
      → activate_loop allocated context (d ∷ rest) n store ≡ continue p
  unfolding activate_loop
  activate_loop-step p e = ap continue e

-- What the constructor's loop leaves: subscriptions for the first `m` dependencies, and nothing else.
record Subscribed (context : ℕ) (ds : AssumptionSet) (n : ℕ) (store : Store Assumption)
    (r : Store Assumption × AssumptionActivation) : Type 0 where
  m : ℕ
  counted : r.1.subscription_count ≡ n + m
  bounded : m ≤ length ds
  actives :
      (t x : ℕ) → active r.0 t x ≡ active store t x + (if x == context then uses t ds m else 0)
  validity : (t : ℕ) → (r.0 t).valid ≡ (store t).valid

update_same : (store : Store Assumption) (a t : ℕ) → update store a (store a) t ≡ store t
update_same store a t = elim (Bool-cases (t == a)) [
  | inl e ↦ ground (arith, ap store (==→eq e))
  | inr e ↦ ground (arith, e)
]
  where
    ==→eq : (t == a) ≡ true → t ≡ a
    ==→eq e = ground (arith, e)

module _ (context : ℕ) where
  Subscribed-stopped :
      (ds : AssumptionSet) (n a : ℕ) (store : Store Assumption) (o : Option AssumptionDependency)
      (s : Status)
      → Subscribed context ds n store (
        update store a (store a),
        record { subscription_count = n; invalid_dependency = o; status = s },
      )
  Subscribed-stopped ds n a store o s = record {
    m = 0;
    counted = omega arith;
    bounded = omega arith;
    actives = λ t x. ground (
      arith,
      ap (λ (v : Assumption). count x v.active_contexts) (update_same store a t),
      uses-zero t ds,
    );
    validity = λ t. ap (λ (v : Assumption). v.valid) (update_same store a t);
  }

  Subscribed-next :
      (d : AssumptionDependency) (ds : AssumptionSet) (n : ℕ) (store : Store Assumption)
      (r : Store Assumption × AssumptionActivation)
      → Subscribed context ds (n + 1) (subscribed_to context store d.assumption) r
      → Subscribed context (d ∷ ds) n store r
  Subscribed-next d ds n store r next = record {
    m = suc next.m;
    counted = omega (arith, next.counted);
    bounded = omega (arith, next.bounded);
    actives = λ t x.
        ground (arith, next.actives t x, active-subscribed_to context store d.assumption t x);
    validity = λ t. next.validity t ∙ ground arith;
  }

  activate_loop-Subscribed :
      (allocated : ℕ → Bool) (ds : AssumptionSet) (n : ℕ) (store : Store Assumption)
      → Subscribed context ds n store (activate_loop allocated context ds n store)
  activate_loop-Subscribed allocated [] n store =
      unfold activate_loop in
      record {
        m = 0;
        counted = omega arith;
        bounded = omega arith;
        actives = λ t x. ground arith;
        validity = λ t. refl;
      }
  activate_loop-Subscribed allocated (d ∷ ds) n store =
      elim (Bool-cases (store d.assumption).valid) [
        | inl valid ↦ elim (Bool-cases (allocated n)) [
          | inl more ↦
              stepped (subscribe-subscribed (allocated n) context (store d.assumption) valid more) (
                Subscribed-next d ds n store _ (
                  activate_loop-Subscribed allocated ds (n + 1)
                    (subscribed_to context store d.assumption)))
          | inr short ↦
              stepped (subscribe-short (allocated n) context (store d.assumption) valid short) (
                Subscribed-stopped (d ∷ ds) n d.assumption store none
                  (status StatusCode.resource_exhausted d.site))
        ]
        | inr invalid ↦
            stepped (subscribe-invalid (allocated n) context (store d.assumption) invalid)
              (Subscribed-stopped (d ∷ ds) n d.assumption store (some d) ok_status)
      ]
    where
      stepped :
          {p : SubscriptionResult × Assumption}
          → subscribe (allocated n) context (store d.assumption) ≡ p
          → Subscribed context (d ∷ ds) n store (continue allocated context d ds n store p)
          → Subscribed context (d ∷ ds) n store (activate_loop allocated context (d ∷ ds) n store)
      stepped {p} e h = rw (activate_loop-step allocated context d ds n store p e) h

  release_loop-suc :
      (ds : AssumptionSet) (n : ℕ) (store : Store Assumption) (d : AssumptionDependency)
      → get_elem? ds n ≡ some d
      → release_loop context ds (suc n) store
        ≡ release_loop context ds n
            (update store d.assumption (unsubscribe context (store d.assumption)))
  unfolding release_loop
  release_loop-suc ds n store d h = ap (released context ds n store) h

  get_elem?-cases :
      (ds : AssumptionSet) (n : ℕ)
      → n < length ds
      → (d : AssumptionDependency) × (get_elem? ds n ≡ some d)
  get_elem?-cases [] n h = absurd (omega (arith, h))
  get_elem?-cases (d ∷ ds) zero h = (d, refl)
  get_elem?-cases (d ∷ ds) (suc n) h = get_elem?-cases ds n (omega (arith, h))

  release_loop-active :
      (ds : AssumptionSet) (n : ℕ) (store : Store Assumption) (t x : ℕ)
      → n ≤ length ds
      → (active (release_loop context ds n store) t x
          ≡ active store t x - (if x == context then uses t ds n else 0))
        × ((release_loop context ds n store t).valid ≡ (store t).valid)
  release_loop-active ds zero store t x h =
      unfold release_loop in (ground (arith, uses-zero t ds), refl)
  release_loop-active ds (suc n) store t x h =
      let (d, e) = get_elem?-cases ds n h in
      let next : Store Assumption =
        update store d.assumption (unsubscribe context (store d.assumption)) in
      let rest = release_loop-active ds n next t x (omega (arith, h)) in
      rw (release_loop-suc ds n store d e) (
        ground
            (arith, rest.0, active-unsubscribe context store d.assumption t x, uses-suc t ds n d e),
        rest.1 ∙ update-unsubscribe-valid context store d.assumption t,
      )

-- The end of an activation undoes it, whether it succeeded or not: every context is active in every
-- assumption as often as before, and no assumption's validity has changed.
pub release-activate :
    (allocated : ℕ → Bool) (context : Option ℕ) (dependencies : AssumptionSet)
    (store : Store Assumption) (t x : ℕ)
    → (count x
          (release context dependencies
            (activate allocated context dependencies store).1
            (activate allocated context dependencies store).0
            t).active_contexts
        ≡ count x (store t).active_contexts)
      × ((release context dependencies
            (activate allocated context dependencies store).1
            (activate allocated context dependencies store).0
            t).valid
          ≡ (store t).valid)
unfolding activate release
release-activate allocated none dependencies store t x = (refl, refl)
release-activate allocated (some context) dependencies store t x =
    let loop = activate_loop allocated context dependencies 0 store in
    let done = activate_loop-Subscribed context allocated dependencies 0 store in
    let undone =
      release_loop-active context dependencies loop.1.subscription_count loop.0 t x
        (omega (arith, done.counted, done.bounded)) in
    (
      undone.0 ∙ ground (arith, done.actives t x, ap (uses t dependencies) done.counted),
      undone.1 ∙ done.validity t,
    )
