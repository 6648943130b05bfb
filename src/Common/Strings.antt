-- ===== src/Common/Strings.antt =====
-- Strings as lists of the numbers of their characters.
use Prim.Native.Nat.{ℕ}
use mathlib.Core.Path.{◌≡◌, refl}
use mathlib.Core.Path.{ap₂}
use mathlib.Core.Bool.{Bool, true, false, ◌&&◌}
use mathlib.Core.List.{List, [], ◌∷◌}
use native.Mathlib.Omega.{arith}
use package.uni_jit.Common.Tests.{◌==◌, ==→eq, ==_refl}

abbrev pub Text : Type 0
Text = List ℕ

abbrev pub is_empty {ℓ} : {A : Type ℓ} → List A → Bool
is_empty [] = true
is_empty (x ∷ xs) = false

abbrev pub same_text : Text → Text → Bool
same_text [] [] = true
same_text (a ∷ s) (b ∷ t) = a == b && same_text s t
same_text _ _ = false

pub same_text_refl : (a : Text) → same_text a a ≡ true
same_text_refl [] = refl
same_text_refl (a ∷ s) = ground (arith, ==_refl a, same_text_refl s)

pub same_text→eq : (a b : Text) → same_text a b ≡ true → a ≡ b
same_text→eq [] [] h = refl
same_text→eq [] (b ∷ t) h = absurd (ground (arith, h))
same_text→eq (a ∷ s) [] h = absurd (ground (arith, h))
same_text→eq (a ∷ s) (b ∷ t) h =
    ap₂ ◌∷◌ (==→eq (ground (arith, h))) (same_text→eq s t (ground (arith, h)))
