-- ===== src/Word/ByteSwap.antt =====
-- byte_swap_word (src/ir/function.cpp) against the reversal of a list of bytes.
use mathlib.Core.List.{reverse, reverse-cons, reverse-reverse}
use native.Mathlib.Nat.{
  div-div-eq-div-mul, div-le_self, pow-suc, div-one, pow-le-pow_right, mod-eq_of_lt,
}
use native.Mathlib.Numerals.{towards_suc}
use mathlib.Core.Path.{ap₂}
use uni_jit.Common.{
  ℕ, zero, suc, ◌+◌, ◌*◌, ◌/◌, ◌%◌, ◌^◌, ◌≤◌, ◌<◌, ap, sym, ◌≡◌, refl, ◌∙◌, bit_and, bit_or, arith,
  length, length-append, All-append, ◌∷◌, [], List,
}
use uni_jit.Common.Bits.{and_byte, or_byte}
use uni_jit.Common.Bytes.{
  to_bytes, from_bytes, AreBytes, from_bytes-lt, from_bytes-append, from_bytes-to_bytes,
  to_bytes-from_bytes, length-to_bytes, to_bytes-AreBytes,
}
use uni_jit.Ir.Opcode.{MemoryWidth, memory_width_bytes}
use uni_jit.Word.{IsWord}

-- The loop of byte_swap_word: `rounds` bytes are left, and `index` bytes are done.
swap_loop : ℕ → ℕ → ℕ → ℕ → ℕ
swap_loop zero index bits reversed = reversed
swap_loop (suc rounds) index bits reversed =
    swap_loop rounds (index + 1) bits
      (bit_or (reversed * 2 ^ 8 % 2 ^ 64) (bit_and (bits / 2 ^ (index * 8)) 0xFF))

unfoldable pub byte_swap_word : ℕ → MemoryWidth → ℕ
unfolding swap_loop
byte_swap_word value MemoryWidth.k16 = swap_loop 2 0 value 0
byte_swap_word value MemoryWidth.k32 = swap_loop 4 0 value 0
byte_swap_word value MemoryWidth.k64 = swap_loop 8 0 value 0
byte_swap_word value _ = 0

abbrev swapped : ℕ → ℕ → ℕ
swapped n x = from_bytes (reverse (to_bytes n x))

length-reverse {ℓ} : {A : Type ℓ} (xs : List A) → length (reverse xs) ≡ length xs
length-reverse [] = refl
length-reverse (x ∷ xs) =
    omega
      (arith, ap length (reverse-cons x xs), length-append (reverse xs) (x ∷ []), length-reverse xs)

AreBytes-reverse : (bs : List ℕ) → AreBytes bs → AreBytes (reverse bs)
AreBytes-reverse [] h = tt
AreBytes-reverse (b ∷ bs) h =
    rw (reverse-cons b bs)
      (All-append (λ b. b < 256) (reverse bs) (b ∷ []) (AreBytes-reverse bs h.1) (h.0, tt))

length-swapped : (n x : ℕ) → length (reverse (to_bytes n x)) ≡ n
length-swapped n x = length-reverse (to_bytes n x) ∙ length-to_bytes n x

swapped-suc : (n x : ℕ) → swapped (suc n) x ≡ swapped n (x / 256) + 256 ^ n * (x % 256)
swapped-suc n x = omega (
  arith,
  ap from_bytes (reverse-cons (x % 256) (to_bytes n (x / 256))),
  from_bytes-append (reverse (to_bytes n (x / 256))) ((x % 256) ∷ []),
  ap (λ (t : ℕ). 256 ^ t * (x % 256)) (length-swapped n (x / 256)),
)

pow-le_256 : (index : ℕ) → index ≤ 7 → 256 ^ index ≤ 256 ^ 7
pow-le_256 index h = pow-le-pow_right (omega arith) h

shift_index : (x index : ℕ) → x / 2 ^ ((index + 1) * 8) ≡ x / 2 ^ (index * 8) / 256
shift_index x index =
    ap (λ (t : ℕ). x / 2 ^ t) (omega arith)
    ∙ ap (λ (t : ℕ). x / t) (shift_eight (index * 8))
    ∙ sym (div-div-eq-div-mul x (2 ^ (index * 8)) 256)
  where
    shift_eight : (s : ℕ) → 2 ^ (s + 8) ≡ 2 ^ s * 256
    shift_eight s = simp towards_suc (omega arith)

-- One round places the next byte below the ones that are done.
swap_loop_step :
    (rounds index bits reversed : ℕ)
    → IsWord bits
    → index ≤ 7
    → reversed < 256 ^ index
    → swap_loop (suc rounds) index bits reversed
      ≡ swap_loop rounds (index + 1) bits (reversed * 256 + bits / 2 ^ (index * 8) % 256)
unfolding swap_loop
swap_loop_step rounds index bits reversed w h lt =
    let x : ℕ = bits / 2 ^ (index * 8) in
    let small : x < 2 ^ 64 = omega (arith, div-le_self bits (2 ^ (index * 8))) in
    let room : reversed * 256 < 2 ^ 64 = omega (arith, pow-le_256 index h) in
    ap (swap_loop rounds (index + 1) bits) (
      ap₂ bit_or (mod-eq_of_lt room) (and_byte x small)
      ∙ or_byte 64 reversed (x % 256) room (omega arith) (omega arith))

pow_256-suc : (index : ℕ) → 256 ^ (index + 1) ≡ 256 ^ index * 256
pow_256-suc index = simp towards_suc (omega arith)

swap_loop-swapped :
    (rounds index bits reversed : ℕ)
    → IsWord bits
    → rounds + index ≤ 8
    → reversed < 256 ^ index
    → swap_loop rounds index bits reversed
      ≡ reversed * 256 ^ rounds + swapped rounds (bits / 2 ^ (index * 8))
swap_loop-swapped zero index bits reversed w h lt = unfold swap_loop in omega arith
swap_loop-swapped (suc rounds) index bits reversed w h lt =
    let x : ℕ = bits / 2 ^ (index * 8) in
    swap_loop_step rounds index bits reversed w (omega arith) lt
    ∙ omega (
      arith,
      swap_loop-swapped rounds (index + 1) bits (reversed * 256 + x % 256) w (omega arith)
          (omega (arith, pow_256-suc index)),
      ap (swapped rounds) (shift_index bits index),
      swapped-suc rounds x,
      ap (λ (t : ℕ). reversed * t) (pow-suc 256 rounds),
    )

-- Two reversals of `n` bytes keep the low `n` bytes.
swapped_twice : (n x : ℕ) → swapped n (swapped n x) ≡ x % 256 ^ n
swapped_twice n x =
    let r : List ℕ = reverse (to_bytes n x) in
    let back : to_bytes n (from_bytes r) ≡ r =
      rw (length-swapped n x) at
        (to_bytes-from_bytes r (AreBytes-reverse _ (to_bytes-AreBytes n x))) in
    ap (λ t. from_bytes (reverse t)) back
    ∙ ap from_bytes (reverse-reverse (to_bytes n x))
    ∙ from_bytes-to_bytes n x

-- The width of a byte swap, in bytes.
abbrev pub IsSwapWidth : MemoryWidth → Type 0
IsSwapWidth MemoryWidth.k8 = ⊥
IsSwapWidth MemoryWidth.k128 = ⊥
IsSwapWidth _ = Unit

-- The loop reverses the low bytes of a word and clears the others.
pub byte_swap_word_reverses :
    (value : ℕ) (width : MemoryWidth)
    → IsWord value
    → IsSwapWidth width
    → byte_swap_word value width ≡ from_bytes (reverse (to_bytes (memory_width_bytes width) value))
unfolding byte_swap_word
byte_swap_word_reverses value MemoryWidth.k8 w h = absurd h
byte_swap_word_reverses value MemoryWidth.k16 w h = omega (
  arith,
  swap_loop-swapped 2 0 value 0 w (omega arith) (omega arith),
  ap (swapped 2) (div-one value),
)
byte_swap_word_reverses value MemoryWidth.k32 w h = omega (
  arith,
  swap_loop-swapped 4 0 value 0 w (omega arith) (omega arith),
  ap (swapped 4) (div-one value),
)
byte_swap_word_reverses value MemoryWidth.k64 w h = omega (
  arith,
  swap_loop-swapped 8 0 value 0 w (omega arith) (omega arith),
  ap (swapped 8) (div-one value),
)
byte_swap_word_reverses value MemoryWidth.k128 w h = absurd h

swapped-lt : (n x : ℕ) → swapped n x < 256 ^ n
swapped-lt n x =
    rw (length-swapped n x) at
      (from_bytes-lt (reverse (to_bytes n x)) (AreBytes-reverse _ (to_bytes-AreBytes n x)))

swap_width-le : (width : MemoryWidth) → IsSwapWidth width → memory_width_bytes width ≤ 8
swap_width-le width h = ground arith

pub byte_swap_word-IsWord :
    (value : ℕ) (width : MemoryWidth)
    → IsWord value
    → IsSwapWidth width
    → IsWord (byte_swap_word value width)
byte_swap_word-IsWord value width w h =
    let n : ℕ = memory_width_bytes width in
    let fits : 256 ^ n ≤ 256 ^ 8 = pow-le-pow_right (omega arith) (swap_width-le width h) in
    omega (arith, byte_swap_word_reverses value width w h, swapped-lt n value, fits)

-- A second swap of the same width gives back the low bytes of a word, and clears the others.
pub byte_swap_word_twice :
    (value : ℕ) (width : MemoryWidth)
    → IsWord value
    → IsSwapWidth width
    → byte_swap_word (byte_swap_word value width) width ≡ value % 256 ^ memory_width_bytes width
byte_swap_word_twice value width w h =
    byte_swap_word_reverses (byte_swap_word value width) width
      (byte_swap_word-IsWord value width w h) h
    ∙ ap (swapped (memory_width_bytes width)) (byte_swap_word_reverses value width w h)
    ∙ swapped_twice (memory_width_bytes width) value
