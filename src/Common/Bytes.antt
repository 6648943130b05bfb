-- ===== src/Common/Bytes.antt =====
-- Numbers as lists of bytes, lowest first: what the byte loops of the program compute.
use Prim.Native.Nat.{ℕ, zero, suc, ◌+◌, ◌*◌, ◌/◌, ◌%◌, ◌^◌, ◌<◌}
use mathlib.Core.Path.{◌≡◌, refl, sym, ap, ◌∙◌}
use mathlib.Core.List.{List, [], ◌∷◌, ◌++◌}
use native.Mathlib.Nat.{pow-suc, pow-succ', div-div-eq-div-mul, mod-eq_of_lt, add-mul-mod_self_left}
use native.Mathlib.Omega.{arith}
use package.uni_jit.Common.Lists.{length, All}

abbrev pub to_bytes : ℕ → ℕ → List ℕ
to_bytes zero x = []
to_bytes (suc n) x = (x % 256) ∷ to_bytes n (x / 256)

abbrev pub from_bytes : List ℕ → ℕ
from_bytes [] = 0
from_bytes (b ∷ bs) = b + 256 * from_bytes bs

abbrev pub AreBytes : List ℕ → Type 0
AreBytes = All (λ b. b < 256)

pub from_bytes-lt : (bs : List ℕ) → AreBytes bs → from_bytes bs < 256 ^ length bs
from_bytes-lt [] h = omega arith
from_bytes-lt (b ∷ bs) h = omega (arith, from_bytes-lt bs h.1, pow-suc 256 (length bs))

pub length-to_bytes : (n x : ℕ) → length (to_bytes n x) ≡ n
length-to_bytes zero x = refl
length-to_bytes (suc n) x = ap suc (length-to_bytes n (x / 256))

pub to_bytes-AreBytes : (n x : ℕ) → AreBytes (to_bytes n x)
to_bytes-AreBytes zero x = tt
to_bytes-AreBytes (suc n) x = (omega arith, to_bytes-AreBytes n (x / 256))

-- The low bytes and what is above them make up the number.
from_bytes-to_bytes_add : (n x : ℕ) → from_bytes (to_bytes n x) + 256 ^ n * (x / 256 ^ n) ≡ x
from_bytes-to_bytes_add zero x = omega arith
from_bytes-to_bytes_add (suc n) x = omega (
  arith,
  from_bytes-to_bytes_add n (x / 256),
  ap (λ (t : ℕ). 256 ^ suc n * (x / t)) (pow-succ' 256 n),
  ap (λ (t : ℕ). 256 ^ suc n * t) (div-div-eq-div-mul x 256 (256 ^ n)),
  ap (λ (t : ℕ). t * (x / 256 / 256 ^ n)) (pow-suc 256 n),
)

pub from_bytes-to_bytes : (n x : ℕ) → from_bytes (to_bytes n x) ≡ x % 256 ^ n
from_bytes-to_bytes n x =
    let below : from_bytes (to_bytes n x) < 256 ^ n =
      rw (length-to_bytes n x) at (from_bytes-lt (to_bytes n x) (to_bytes-AreBytes n x)) in
    sym (mod-eq_of_lt below)
    ∙ sym (add-mul-mod_self_left (from_bytes (to_bytes n x)) (256 ^ n) (x / 256 ^ n))
    ∙ ap (λ (t : ℕ). t % 256 ^ n) (from_bytes-to_bytes_add n x)

pub to_bytes-from_bytes : (bs : List ℕ) → AreBytes bs → to_bytes (length bs) (from_bytes bs) ≡ bs
to_bytes-from_bytes [] h = refl
to_bytes-from_bytes (b ∷ bs) h =
    let low : (b + 256 * from_bytes bs) % 256 ≡ b = omega (arith, h.0) in
    let high : (b + 256 * from_bytes bs) / 256 ≡ from_bytes bs = omega (arith, h.0) in
    rw (low, high) (ap (◌∷◌ b) (to_bytes-from_bytes bs h.1))

pub from_bytes-append :
    (bs cs : List ℕ) → from_bytes (bs ++ cs) ≡ from_bytes bs + 256 ^ length bs * from_bytes cs
from_bytes-append [] cs = omega arith
from_bytes-append (b ∷ bs) cs =
    omega
      (arith, from_bytes-append bs cs, ap (λ (t : ℕ). t * from_bytes cs) (pow-suc 256 (length bs)))
