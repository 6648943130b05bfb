-- ===== src/Memory/Bytes.antt =====
-- What the byte loops of src/ir/memory_access.cpp read and write, as lists of bytes.
use mathlib.Core.List.{reverse, reverse-cons}
use mathlib.Core.Path.{ap₂}
use native.Mathlib.Nat.{
  add_assoc, zero-add, one-le-pow, mul-le-mul, mul-le-mul_right, pow-suc, pow-le-pow_right,
  mod-eq_of_lt,
}
use native.Mathlib.Numerals.{towards_suc}
use uni_jit.Common.{
  ℕ, zero, suc, ◌+◌, ◌-◌, ◌*◌, ◌%◌, ◌^◌, ◌≤◌, ◌<◌, ap, sym, ◌∙◌, ◌≡◌, refl, bit_or, Bool, true,
  false, List, [], ◌∷◌, arith, length, length-append, if◌then◌else◌,
}
use uni_jit.Common.Bits.{or_disjoint, or_comm}
use uni_jit.Common.Bytes.{from_bytes, from_bytes-append}
use uni_jit.Memory.Loops.{Memory, load_loop}

-- The bytes at `n` addresses from `address` on.
abbrev pub read_bytes : Memory → ℕ → ℕ → List ℕ
read_bytes memory address zero = []
read_bytes memory address (suc n) = memory address ∷ read_bytes memory (address + 1) n

-- The bytes of a value as they stand in memory.
abbrev pub in_order : Bool → List ℕ → List ℕ
in_order little bs = if little then bs else reverse bs

pub length-reverse {ℓ} : {A : Type ℓ} (xs : List A) → length (reverse xs) ≡ length xs
length-reverse [] = refl
length-reverse (x ∷ xs) =
    omega
      (arith, ap length (reverse-cons x xs), length-append (reverse xs) (x ∷ []), length-reverse xs)

pub length-read_bytes : (memory : Memory) (address n : ℕ) → length (read_bytes memory address n) ≡ n
length-read_bytes memory address zero = refl
length-read_bytes memory address (suc n) = ap suc (length-read_bytes memory (address + 1) n)

-- Memory holds bytes.
abbrev pub HoldsBytes : Memory → Type 0
HoldsBytes memory = (a : ℕ) → memory a < 256

pub pow_256 : (index : ℕ) → 2 ^ (index * 8) ≡ 256 ^ index
pow_256 zero = refl
pow_256 (suc index) =
    ap (λ (t : ℕ). 2 ^ t) (omega arith)
    ∙ shift_eight (index * 8)
    ∙ ap (λ (t : ℕ). t * 256) (pow_256 index)
    ∙ sym (pow-suc 256 index)
  where
    shift_eight : (s : ℕ) → 2 ^ (s + 8) ≡ 2 ^ s * 256
    shift_eight s = simp towards_suc (omega arith)

pow_256-add_one : (index : ℕ) → 256 ^ (index + 1) ≡ 256 ^ index * 256
pow_256-add_one index = simp towards_suc (omega arith)

pub pow_256_add : (m n : ℕ) → 256 ^ m * 256 ^ n ≡ 256 ^ (m + n)
pow_256_add zero n = omega (arith, ap (λ (t : ℕ). 256 ^ t) (zero-add n))
pow_256_add (suc m) n =
    let e : suc m + n ≡ suc (m + n) = omega arith in
    rw e (
      omega (
        arith,
        pow-suc 256 m,
        pow-suc 256 (m + n),
        pow_256_add m n,
        ap (λ (t : ℕ). t * 256 ^ n) (pow-suc 256 m),
      ))

-- What is below `256 ^ index` can be moved up by the rounds that are left.
rounds_room :
    (q index rounds : ℕ) → q < 256 ^ index → rounds + index ≤ 8 → q * 256 ^ rounds < 2 ^ 64
rounds_room q index rounds lt h = omega (
  arith,
  mul-le-mul_right {m = suc q} {n = 256 ^ index} (256 ^ rounds) lt,
  pow_256_add index rounds,
  one-le-pow rounds 256,
  pow-le-pow_right {n = 256} (omega arith) {i = index + rounds} {j = 8} (omega arith),
)

byte_room : (b index : ℕ) → b < 256 → index ≤ 7 → b * 256 ^ index < 2 ^ 64
byte_room b index h k = omega (
  arith,
  mul-le-mul {n₁ = b} {n₂ = 255} (omega arith)
      (pow-le-pow_right {n = 256} (omega arith) {i = index} {j = 7} k),
)

-- A byte shifted into its place above the bits that are there, or below them.
place_above :
    (bits b index : ℕ)
    → bits < 256 ^ index
    → b < 256
    → index ≤ 7
    → bit_or bits (b * 2 ^ (index * 8) % 2 ^ 64) ≡ bits + b * 256 ^ index
place_above bits b index lt h k =
    ap (λ (t : ℕ). bit_or bits (b * t % 2 ^ 64)) (pow_256 index)
    ∙ ap (bit_or bits) (mod-eq_of_lt (byte_room b index h k))
    ∙ ap (λ (t : ℕ). bit_or bits (b * t)) (sym (pow_256 index))
    ∙ or_disjoint (index * 8) bits b (rw (pow_256 index) lt)
    ∙ ap (λ (t : ℕ). bits + b * t) (pow_256 index)

place_below :
    (q b rounds : ℕ)
    → q * 256 ^ suc rounds < 2 ^ 64
    → b < 256
    → rounds ≤ 7
    → bit_or (q * 256 ^ suc rounds) (b * 2 ^ (rounds * 8) % 2 ^ 64) ≡ (q * 256 + b) * 256 ^ rounds
place_below q b rounds room h k =
    let small : b * 256 ^ rounds < 2 ^ 64 = byte_room b rounds h k in
    let under : b * 256 ^ rounds < 2 ^ (suc rounds * 8) = rw (pow_256 (suc rounds)) (
      omega (
        arith,
        pow-suc 256 rounds,
        mul-le-mul_right {m = b} {n = 255} (256 ^ rounds) (omega arith),
        one-le-pow rounds 256,
      )) in
    ap₂ (λ (t u : ℕ). bit_or t (u % 2 ^ 64)) (ap (λ (t : ℕ). q * t) (sym (pow_256 (suc rounds))))
      (ap (λ (t : ℕ). b * t) (pow_256 rounds))
    ∙ ap (bit_or (q * 2 ^ (suc rounds * 8))) (mod-eq_of_lt small)
    ∙ or_comm 64 (q * 2 ^ (suc rounds * 8)) (b * 256 ^ rounds) (rw (pow_256 (suc rounds)) room)
        small
    ∙ or_disjoint (suc rounds * 8) (b * 256 ^ rounds) q under
    ∙ ap (λ (t : ℕ). b * 256 ^ rounds + q * t) (pow_256 (suc rounds) ∙ pow-suc 256 rounds)
    ∙ omega arith

reversed_cons :
    (n b : ℕ) (bs : List ℕ)
    → length bs ≡ n
    → from_bytes (reverse (b ∷ bs)) ≡ from_bytes (reverse bs) + 256 ^ n * b
reversed_cons n b bs e = omega (
  arith,
  ap from_bytes (reverse-cons b bs),
  from_bytes-append (reverse bs) (b ∷ []),
  ap (λ (t : ℕ). 256 ^ t * b) (length-reverse bs ∙ e),
)

module _ (memory : Memory) (address : ℕ) (holds : HoldsBytes memory) (bytes : ℕ) where
  little_step :
      (rounds index bits : ℕ)
      → index ≤ 7
      → bits < 256 ^ index
      → load_loop memory address true bytes (suc rounds) index bits
        ≡ load_loop memory address true bytes rounds
            (index + 1)
            (bits + memory (address + index) * 256 ^ index)
  unfolding load_loop
  little_step rounds index bits h lt =
      ap (load_loop memory address true bytes rounds (index + 1))
        (place_above bits (memory (address + index)) index lt (holds (address + index)) h)

  pub load_loop-little :
      (rounds index bits : ℕ)
      → rounds + index ≤ 8
      → bits < 256 ^ index
      → load_loop memory address true bytes rounds index bits
        ≡ bits + 256 ^ index * from_bytes (read_bytes memory (address + index) rounds)
  load_loop-little zero index bits h lt = unfold load_loop in omega arith
  load_loop-little (suc rounds) index bits h lt =
      let b : ℕ = memory (address + index) in
      little_step rounds index bits (omega arith) lt
      ∙ omega (
        arith,
        load_loop-little rounds (index + 1) (bits + b * 256 ^ index) (omega arith) (
            omega (
              arith,
              pow_256-add_one index,
              holds (address + index),
              mul-le-mul_right {m = b} {n = 255} (256 ^ index)
                  (omega (arith, holds (address + index))),
            )),
        ap (λ (t : ℕ). t * from_bytes (read_bytes memory (address + index + 1) rounds))
            (pow_256-add_one index),
        ap (λ (t : ℕ). from_bytes (read_bytes memory t rounds)) (add_assoc address index 1),
        ap (λ (t : ℕ). 256 ^ (index + 1) * from_bytes (read_bytes memory t rounds))
            (add_assoc address index 1),
      )

  big_step :
      (rounds index q : ℕ)
      → suc rounds + index ≡ bytes
      → bytes ≤ 8
      → q < 256 ^ index
      → load_loop memory address false bytes (suc rounds) index (q * 256 ^ suc rounds)
        ≡ load_loop memory address false bytes rounds
            (index + 1)
            ((q * 256 + memory (address + index)) * 256 ^ rounds)
  unfolding load_loop
  big_step rounds index q e h lt =
      let place : bytes - index - 1 ≡ rounds = omega arith in
      rw place (
        ap (load_loop memory address false bytes rounds (index + 1)) (
          place_below q (memory (address + index)) rounds
            (rounds_room q index (suc rounds) lt (omega arith)) (holds (address + index))
            (omega arith)))

  pub load_loop-big :
      (rounds index q : ℕ)
      → rounds + index ≡ bytes
      → bytes ≤ 8
      → q < 256 ^ index
      → load_loop memory address false bytes rounds index (q * 256 ^ rounds)
        ≡ q * 256 ^ rounds + from_bytes (reverse (read_bytes memory (address + index) rounds))
  load_loop-big zero index q e h lt = unfold load_loop in omega arith
  load_loop-big (suc rounds) index q e h lt =
      let b : ℕ = memory (address + index) in
      big_step rounds index q e h lt
      ∙ load_loop-big rounds (index + 1) (q * 256 + b) (omega arith) h
          (omega (arith, pow_256-add_one index, holds (address + index)))
      ∙ omega (
        arith,
        ap (λ (t : ℕ). q * t) (pow-suc 256 rounds),
        ap (λ (t : ℕ). from_bytes (reverse (read_bytes memory t rounds)))
            (sym (add_assoc address index 1)),
        reversed_cons rounds b (read_bytes memory (address + index + 1) rounds)
            (length-read_bytes memory (address + index + 1) rounds),
      )
