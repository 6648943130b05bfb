-- ===== src/Common/Keys.antt =====
-- Lists whose entries have distinct keys.
use Prim.Native.Nat.{ℕ}
use mathlib.Core.Path.{◌≡◌, ap, ◌∙◌}
use mathlib.Core.Logic.{◌≢◌, ◌⊎◌, inl, inr}
use mathlib.Core.List.{List, [], ◌∷◌, ◌++◌}
use mathlib.Core.Option.{none, some}
use native.Mathlib.Omega.{arith}
use package.uni_jit.Common.Tests.{◌==◌, ==_refl, ==→eq, eq→==, Bool-cases, if_true, if_false}
use package.uni_jit.Common.Lists.{All, All-append, find_if}

module _ {ℓ} {A : Type ℓ} where
  pub All-map {κ μ} :
      {P : A → Type κ} {Q : A → Type μ} (f : (x : A) → P x → Q x) (xs : List A)
      → All P xs
      → All Q xs
  All-map f [] h = _
  All-map f (x ∷ xs) h = (f x h.0, All-map f xs h.1)

module _ {ℓ} {A : Type ℓ} (key : A → ℕ) where
  abbrev pub Distinct : List A → Type 0
  Distinct [] = Unit
  Distinct (x ∷ xs) = All (λ y. key x ≢ key y) xs × Distinct xs

  pub missed-All :
      (xs : List A) (k : ℕ) → find_if (λ c. key c == k) xs ≡ none → All (λ y. key y ≢ k) xs
  missed-All [] k h = _
  missed-All (x ∷ xs) k h = (λ e. ground (arith, h, e), missed-All xs k (ground (arith, h)))

  pub Distinct-append :
      (xs : List A) (x : A)
      → Distinct xs
      → find_if (λ c. key c == key x) xs ≡ none
      → Distinct (xs ++ x ∷ [])
  Distinct-append [] x d h = (_, _)
  Distinct-append (y ∷ xs) x d h = (
    All-append (λ z. key y ≢ key z) xs (x ∷ []) d.0 ((missed-All (y ∷ xs) (key x) h).0, _),
    Distinct-append xs x d.1 (ground (arith, h)),
  )

  -- A key finds its own entry.
  pub find_if-Distinct :
      (xs : List A) → Distinct xs → All (λ x. find_if (λ c. key c == key x) xs ≡ some x) xs
  find_if-Distinct [] d = _
  find_if-Distinct (x ∷ xs) d =
      (ground (arith, ==_refl (key x)), later xs xs d.0 (find_if-Distinct xs d.1))
    where
      later :
          (zs ys : List A)
          → All (λ y. key x ≢ key y) ys
          → All (λ y. find_if (λ c. key c == key y) zs ≡ some y) ys
          → All (λ y. find_if (λ c. key c == key y) (x ∷ zs) ≡ some y) ys
      later zs [] u v = _
      later zs (y ∷ ys) u v = (ground (arith, u.0, v.0), later zs ys u.1 v.1)

module _ {A : Type 0} (key : A → ℕ) where
  -- The first entry of a key in a list.
  abbrev pub IsFirst : ℕ → A → List A → Type 0
  IsFirst k y [] = ⊥
  IsFirst k y (x ∷ xs) = ((x ≡ y) × (key x ≡ k)) ⊎ ((key x ≢ k) × IsFirst k y xs)

  pub find_if-IsFirst :
      (k : ℕ) (y : A) (xs : List A) → find_if (λ c. key c == k) xs ≡ some y → IsFirst k y xs
  find_if-IsFirst k y [] found = absurd (ground (arith, found))
  find_if-IsFirst k y (x ∷ xs) found = elim (Bool-cases (key x == k)) [
    | inl hit ↦ inl (ground (arith, found, hit), ==→eq hit)
    | inr miss ↦ inr (
      λ same. ground (arith, miss, eq→== same),
      find_if-IsFirst k y xs (ground (arith, found, miss)),
    )
  ]

  pub IsFirst-find_if :
      (k : ℕ) (y : A) (xs : List A) → IsFirst k y xs → find_if (λ c. key c == k) xs ≡ some y
  IsFirst-find_if k y [] h = elim h [ ]
  IsFirst-find_if k y (x ∷ xs) (inl (same, hit)) = if_true _ _ (eq→== hit) ∙ ap some same
  IsFirst-find_if k y (x ∷ xs) (inr (miss, later)) = elim (Bool-cases (key x == k)) [
    | inl hit ↦ absurd (miss (==→eq hit))
    | inr other ↦ if_false _ _ other ∙ IsFirst-find_if k y xs later
  ]
