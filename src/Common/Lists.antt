-- ===== src/Common/Lists.antt =====
-- Lists measured and indexed by native numbers, under the library's names.
use Prim.Native.Nat.{ℕ, zero, suc, ◌+◌, ◌-◌, ◌<◌}
use mathlib.Core.Path.{◌≡◌, refl}
use mathlib.Core.List.{List, [], ◌∷◌, ◌++◌}
use mathlib.Core.Bool.{Bool, true, false, ◌||◌}
use mathlib.Core.Option.{Option, none, some}
use native.Mathlib.Omega.{arith}
use mathlib.Core.Path.{subst}
use mathlib.Core.Logic.{inl, inr}
use package.uni_jit.Common.Tests.{Bool-cases, if◌then◌else◌, ◌==◌}

module _ {ℓ} {A : Type ℓ} where
  abbrev pub length : List A → ℕ
  length [] = 0
  length (x ∷ xs) = suc (length xs)

  abbrev pub get_elem? : List A → ℕ → Option A
  get_elem? [] i = none
  get_elem? (x ∷ xs) zero = some x
  get_elem? (x ∷ xs) (suc i) = get_elem? xs i

  -- A write out of bounds changes nothing.
  abbrev pub set : List A → ℕ → A → List A
  set [] i v = []
  set (x ∷ xs) zero v = v ∷ xs
  set (x ∷ xs) (suc i) v = x ∷ set xs i v

  pub length-append : (xs ys : List A) → length (xs ++ ys) ≡ length xs + length ys
  length-append [] ys = omega arith
  length-append (x ∷ xs) ys = omega (arith, length-append xs ys)

  pub get_elem?-bound : (xs : List A) (i : ℕ) → i < length xs → (x : A) × (get_elem? xs i ≡ some x)
  get_elem?-bound [] i h = absurd (omega (arith, h))
  get_elem?-bound (x ∷ xs) zero h = (x, refl)
  get_elem?-bound (x ∷ xs) (suc i) h = get_elem?-bound xs i (omega (arith, h))

  -- A predicate on every entry.
  abbrev pub All {κ} : (A → Type κ) → List A → Type κ
  All P [] = Unit
  All P (x ∷ xs) = P x × All P xs

module _ {ℓ} {A : Type ℓ} where
  pub All-append {κ} : (P : A → Type κ) (xs ys : List A) → All P xs → All P ys → All P (xs ++ ys)
  All-append P [] ys h k = k
  All-append P (x ∷ xs) ys h k = (h.0, All-append P xs ys h.1 k)

  -- The first entry that passes a test, as std::find_if.
  abbrev pub find_if : (A → Bool) → List A → Option A
  find_if test [] = none
  find_if test (x ∷ xs) = if test x then some x else find_if test xs

  pub find_if-append :
      (test : A → Bool) (xs : List A) (y : A)
      → find_if test xs ≡ none
      → test y ≡ true
      → find_if test (xs ++ y ∷ []) ≡ some y
  find_if-append test [] y missed passed = ground (arith, passed)
  find_if-append test (x ∷ xs) y missed passed = ground (arith, missed, find_if-append test xs y)

  pub find_if-none :
      (test : A → Bool) (xs : List A) → find_if test xs ≡ none → All (λ x. test x ≡ false) xs
  find_if-none test [] missed = _
  find_if-none test (x ∷ xs) missed =
      (ground (arith, missed), find_if-none test xs (ground (arith, missed)))

  pub find_if-some :
      (test : A → Bool) (xs : List A) (y : A) → find_if test xs ≡ some y → test y ≡ true
  find_if-some test [] y found = absurd (ground (arith, found))
  find_if-some test (x ∷ xs) y found = ground (arith, found, find_if-some test xs y)

module _ {ℓ κ} {A : Type ℓ} (P : A → Type κ) where
  pub find_if-All :
      (test : A → Bool) (xs : List A) (y : A) → All P xs → find_if test xs ≡ some y → P y
  find_if-All test [] y h found = absurd (ground (arith, found))
  find_if-All test (x ∷ xs) y h found = elim (Bool-cases (test x)) [
    | inl hit ↦ subst P (ground (arith, found, hit)) h.0
    | inr miss ↦ find_if-All test xs y h.1 (ground (arith, found, miss))
  ]

-- How often a number stands in a list, and the list without its first occurrence.
abbrev pub count : ℕ → List ℕ → ℕ
count x [] = 0
count x (y ∷ ys) = if y == x then suc (count x ys) else count x ys

abbrev pub erase_first : ℕ → List ℕ → List ℕ
erase_first x [] = []
erase_first x (y ∷ ys) = if y == x then ys else y ∷ erase_first x ys

pub count-append : (x : ℕ) (xs ys : List ℕ) → count x (xs ++ ys) ≡ count x xs + count x ys
count-append x [] ys = omega arith
count-append x (y ∷ xs) ys = ground (arith, count-append x xs ys)

pub count-erase_first :
    (x y : ℕ) (xs : List ℕ) → count x (erase_first y xs) ≡ count x xs - (if y == x then 1 else 0)
count-erase_first x y [] = ground arith
count-erase_first x y (z ∷ xs) = ground (arith, count-erase_first x y xs)

-- Whether a number stands in a list, which is a set of numbers.
abbrev pub contains : ℕ → List ℕ → Bool
contains x [] = false
contains x (y ∷ ys) = y == x || contains x ys
