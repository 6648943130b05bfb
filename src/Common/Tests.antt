-- ===== src/Common/Tests.antt =====
-- Boolean tests on the native numbers, the conditional, and case splits that keep the equation.
use Prim.Native.Nat.{ℕ, ◌≤◌, ◌<◌, compare, Ordering}
use mathlib.Core.Path.{◌≡◌, refl, ap}
use mathlib.Core.Logic.{◌↔◌, ◌⊎◌, inl, inr}
use mathlib.Core.Bool.{Bool, true, false, ◌&&◌}
use mathlib.Core.Option.{Option, none, some}
use native.Mathlib.Omega.{arith}

abbrev pub ltb : ℕ → ℕ → Bool
ltb a b = elim (compare a b) [ Ordering.lt ↦ true | _ ↦ false ]

abbrev pub leb : ℕ → ℕ → Bool
leb a b = elim (compare a b) [ Ordering.gt ↦ false | _ ↦ true ]

infix 50 ◌==◌
abbrev pub ◌==◌ : ℕ → ℕ → Bool
a == b = elim (compare a b) [ Ordering.eq ↦ true | _ ↦ false ]

infix 1 if◌then◌else◌
abbrev pub if◌then◌else◌ {ℓ} : {A : Type ℓ} → Bool → A → A → A
if true then x else y = x
if false then x else y = y

pub ltb→lt : (a b : ℕ) → ltb a b ≡ true → a < b
ltb→lt a b h = ground arith

pub lt→ltb : (a b : ℕ) → a < b → ltb a b ≡ true
lt→ltb a b h = ground arith

pub leb→le : (a b : ℕ) → leb a b ≡ true → a ≤ b
leb→le a b h = ground arith

pub ==_iff : (a b : ℕ) → ((a == b) ≡ true) ↔ (a ≡ b)
==_iff a b = ground arith

pub ==→eq : {a b : ℕ} → (a == b) ≡ true → a ≡ b
==→eq h = ground (arith, h)

pub eq→== : {a b : ℕ} → a ≡ b → (a == b) ≡ true
eq→== h = ground (arith, h)

pub ==_refl : (a : ℕ) → (a == a) ≡ true
==_refl a = ground arith

pub ruleset tests = (arith, ltb→lt, lt→ltb, leb→le)

pub Bool-cases : (b : Bool) → (b ≡ true) ⊎ (b ≡ false)
Bool-cases true = inl refl
Bool-cases false = inr refl

pub Option-cases {ℓ} : {A : Type ℓ} (o : Option A) → (o ≡ none) ⊎ ((a : A) × (o ≡ some a))
Option-cases none = inl refl
Option-cases (some a) = inr (a, refl)

-- A conjunction of tests.
pub and-five :
    (a b c d e : Bool)
    → ((a && b && c && d && e) ≡ true)
      ↔ ((a ≡ true) × (b ≡ true) × (c ≡ true) × (d ≡ true) × (e ≡ true))
and-five a b c d e = ground arith

pub and-six :
    (a b c d e f : Bool)
    → ((a && b && c && d && e && f) ≡ true)
      ↔ ((a ≡ true) × (b ≡ true) × (c ≡ true) × (d ≡ true) × (e ≡ true) × (f ≡ true))
and-six a b c d e f = ground arith

-- What holds of both branches of a conditional, and what holds of each where it is taken.
pub if_both {ℓ κ} :
    {A : Type ℓ} (P : A → Type κ) (test : Bool) (x y : A) → P x → P y → P (if test then x else y)
if_both P true x y p q = p
if_both P false x y p q = q

pub if_each {ℓ κ} :
    {A : Type ℓ} (P : A → Type κ) (test : Bool) (x y : A)
    → (test ≡ true → P x)
    → (test ≡ false → P y)
    → P (if test then x else y)
if_each P true x y p q = p refl
if_each P false x y p q = q refl

pub if_true {ℓ} : {A : Type ℓ} {test : Bool} (x y : A) → test ≡ true → (if test then x else y) ≡ x
if_true x y h = ap (λ t. if t then x else y) h

pub if_false {ℓ} : {A : Type ℓ} {test : Bool} (x y : A) → test ≡ false → (if test then x else y) ≡ y
if_false x y h = ap (λ t. if t then x else y) h
