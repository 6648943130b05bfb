-- ===== src/Runtime/Assumption/Set.antt =====
-- AssumptionSet.add keeps the set free of duplicates (src/runtime/assumption.cpp).
use mathlib.Core.Path.{subst}
use uni_jit.Common.{
  ℕ, ◌^◌, ◌<◌, Bool, true, false, Option, none, some, List, [], ◌∷◌, ◌++◌, ◌≡◌, ◌≢◌, ◌⊎◌, inl, inr,
  refl, sym, ap, ◌∙◌, All, All-append, find_if, find_if-none, find_if-append, ◌==◌, ==_refl, arith,
  Option-cases,
}
use uni_jit.Status.{ok_status, is_ok}
use uni_jit.Runtime.Assumption.{AssumptionDependency, AssumptionSet, add, duplicates, find}

-- Two dependencies that share neither their site nor their assumption.
abbrev Differ : AssumptionDependency → AssumptionDependency → Type 0
Differ d e = (d.site ≢ e.site) × (d.assumption ≢ e.assumption)

-- No two dependencies share a site or an assumption, and every site is a word that is not negative.
abbrev pub IsUnique : AssumptionSet → Type 0
IsUnique [] = Unit
IsUnique (d ∷ ds) = All (λ e. Differ d e) ds × (d.site < 2 ^ 63) × IsUnique ds

IsUnique-append :
    (ds : AssumptionSet) (d : AssumptionDependency)
    → IsUnique ds
    → All (λ e. Differ e d) ds
    → d.site < 2 ^ 63
    → IsUnique (ds ++ d ∷ [])
IsUnique-append [] d u differ low = (_, low, _)
IsUnique-append (e ∷ ds) d u differ low = (
  All-append (λ f. Differ e f) ds (d ∷ []) u.0 (differ.0, _),
  u.1,
  IsUnique-append ds d u.2 differ.1 low,
)

All-map {ℓ κ μ} :
    {A : Type ℓ} {P : A → Type κ} {Q : A → Type μ} (f : (x : A) → P x → Q x) (xs : List A)
    → All P xs
    → All Q xs
All-map f [] h = _
All-map f (x ∷ xs) h = (f x h.0, All-map f xs h.1)

duplicates-Differ :
    (d : AssumptionDependency) (site pointer resume_offset : ℕ)
    → duplicates site pointer d ≡ false
    → Differ d (record { assumption = pointer; site = site; resume_offset = resume_offset })
unfolding duplicates
duplicates-Differ d site pointer resume_offset h =
    (λ e. ground (arith, h, e), λ e. ground (arith, h, e))

module _ (allocated : Bool) (pointer site resume_offset : ℕ) (dependencies : AssumptionSet) where
  abbrev added : AssumptionDependency
  added = record { assumption = pointer; site = site; resume_offset = resume_offset }

  -- What add does on each of its branches.
  add-cases :
      (((add allocated (some pointer) site resume_offset dependencies).0 ≡ dependencies)
        × (is_ok (add allocated (some pointer) site resume_offset dependencies).1 ≡ false))
      ⊎ ((add allocated (some pointer) site resume_offset dependencies
            ≡ (dependencies ++ added ∷ [], ok_status))
          × (site < 2 ^ 63)
          × (find_if (duplicates site pointer) dependencies ≡ none))
  unfolding add
  add-cases = ground (arith, Option-cases (find_if (duplicates site pointer) dependencies))

fresh_site :
    (site pointer : ℕ) (ds : AssumptionSet)
    → find_if (duplicates site pointer) ds ≡ none
    → find site ds ≡ none
unfolding find duplicates
fresh_site site pointer [] h = refl
fresh_site site pointer (d ∷ ds) h = ground (arith, h, fresh_site site pointer ds)

-- Adding a dependency keeps the set free of duplicate sites and tokens, and its sites in range, on
-- every branch.
pub add-IsUnique :
    (allocated : Bool) (assumption : Option ℕ) (site resume_offset : ℕ)
    (dependencies : AssumptionSet)
    → IsUnique dependencies
    → IsUnique (add allocated assumption site resume_offset dependencies).0
add-IsUnique allocated none site resume_offset dependencies u = unfold add in u
add-IsUnique allocated (some pointer) site resume_offset dependencies u =
    elim (add-cases allocated pointer site resume_offset dependencies) [
      | inl (same, refused) ↦ subst IsUnique (sym same) u
      | inr (grown, low, fresh) ↦
          subst (λ p. IsUnique p.0) (sym grown)
            (IsUnique-append dependencies (added allocated pointer site resume_offset dependencies)
              u
              (All-map (λ d h. duplicates-Differ d site pointer resume_offset h) dependencies
                (find_if-none (duplicates site pointer) dependencies fresh))
              low)
    ]

-- A dependency that add accepts is the one that find then gives for its site.
pub find-add :
    (allocated : Bool) (pointer site resume_offset : ℕ) (dependencies : AssumptionSet)
    → is_ok (add allocated (some pointer) site resume_offset dependencies).1 ≡ true
    → find site (add allocated (some pointer) site resume_offset dependencies).0
      ≡ some (record { assumption = pointer; site = site; resume_offset = resume_offset })
find-add allocated pointer site resume_offset dependencies h =
    elim (add-cases allocated pointer site resume_offset dependencies) [
      | inl (same, refused) ↦ absurd (ground (arith, h, refused))
      | inr (grown, low, fresh) ↦
          ap (λ p. find site p.0) grown ∙ last (fresh_site site pointer dependencies fresh)
    ]
  where
    new : AssumptionDependency
    new = record { assumption = pointer; site = site; resume_offset = resume_offset }

    last : find site dependencies ≡ none → find site (dependencies ++ new ∷ []) ≡ some new
    last missed =
        unfold find in
        find_if-append (λ candidate. candidate.site == site) dependencies new missed (==_refl site)
