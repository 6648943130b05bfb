-- ===== src/Memory/Store.antt =====
-- What store_bounded_word's loop (src/ir/memory_access.cpp) leaves in memory.
use mathlib.Core.List.{reverse, reverse-append}
use mathlib.Core.Path.{ap₂}
use native.Mathlib.Nat.{add-zero, div-one, pow-succ', div-div-eq-div-mul}
use uni_jit.Common.{
  ℕ, zero, suc, ◌+◌, ◌-◌, ◌*◌, ◌/◌, ◌%◌, ◌^◌, ◌≤◌, ◌<◌, ap, sym, ◌∙◌, ◌≡◌, ◌≢◌, refl, ◌⊎◌, inl, inr,
  Bool, true, false, [], ◌∷◌, ◌++◌, arith,
}
use uni_jit.Common.Bytes.{to_bytes}
use uni_jit.Memory.Loops.{Memory, write_byte, shift_index, store_loop}
use uni_jit.Memory.Bytes.{read_bytes, in_order, pow_256, HoldsBytes}

write_byte_ne : (memory : Memory) (a v x : ℕ) → x ≢ a → write_byte memory a v x ≡ memory x
write_byte_ne memory a v x h = ground arith

write_byte_self : (memory : Memory) (a v x : ℕ) → x ≡ a → write_byte memory a v x ≡ v
write_byte_self memory a v x h = ground arith

module _ (address : ℕ) (little : Bool) (bytes bits : ℕ) where
  -- The byte that the loop puts at an index.
  abbrev pub stored_byte : ℕ → ℕ
  stored_byte index = bits / 2 ^ (shift_index little bytes index * 8) % 256

  store_loop-suc :
      (rounds index : ℕ) (memory : Memory)
      → store_loop memory address little bytes (suc rounds) index bits
        ≡ store_loop
            (write_byte memory (address + index) (stored_byte index))
            address
            little
            bytes
            rounds
            (index + 1)
            bits
  unfolding store_loop
  store_loop-suc rounds index memory = refl

  pub store_loop-outside :
      (rounds index x : ℕ) (memory : Memory)
      → (x < address + index) ⊎ (address + index + rounds ≤ x)
      → store_loop memory address little bytes rounds index bits x ≡ memory x
  store_loop-outside zero index x memory h = unfold store_loop in refl
  store_loop-outside (suc rounds) index x memory h =
      ap (λ (m : Memory). m x) (store_loop-suc rounds index memory)
      ∙ store_loop-outside rounds (index + 1) x
          (write_byte memory (address + index) (stored_byte index)) (omega arith)
      ∙ write_byte_ne memory (address + index) (stored_byte index) x (omega arith)

  first_or_later : (index i : ℕ) → index ≤ i → (index ≡ i) ⊎ (index < i)
  first_or_later index i h = omega arith

  pub store_loop-inside :
      (rounds index i : ℕ) (memory : Memory)
      → index ≤ i
      → i < index + rounds
      → store_loop memory address little bytes rounds index bits (address + i) ≡ stored_byte i
  store_loop-inside zero index i memory h k = absurd (omega arith)
  store_loop-inside (suc rounds) index i memory h k =
      let next : Memory = write_byte memory (address + index) (stored_byte index) in
      ap (λ (m : Memory). m (address + i)) (store_loop-suc rounds index memory)
      ∙ elim (first_or_later index i h) [
        | inl e ↦
            store_loop-outside rounds (index + 1) (address + i) next (omega arith)
            ∙ write_byte_self memory (address + index) (stored_byte index) (address + i)
                (omega arith)
            ∙ ap stored_byte e
        | inr later ↦ store_loop-inside rounds (index + 1) i next (omega arith) (omega arith)
      ]

byte-suc : (x i : ℕ) → x / 256 ^ suc i ≡ x / 256 / 256 ^ i
byte-suc x i = ap (λ (t : ℕ). x / t) (pow-succ' 256 i) ∙ sym (div-div-eq-div-mul x 256 (256 ^ i))

-- Bytes in increasing, and in decreasing, order of their weight.
read_bytes-little :
    (memory : Memory) (address n x : ℕ)
    → ((i : ℕ) → i < n → memory (address + i) ≡ x / 256 ^ i % 256)
    → read_bytes memory address n ≡ to_bytes n x
read_bytes-little memory address zero x h = refl
read_bytes-little memory address (suc n) x h =
    ap₂ ◌∷◌
      (ap memory (sym (add-zero address)) ∙ h 0 (omega arith) ∙ ap (λ (t : ℕ). t % 256) (div-one x))
      (read_bytes-little memory (address + 1) n (x / 256) λ i lt.
        ap memory (omega arith) ∙ h (suc i) (omega arith) ∙ ap (λ (t : ℕ). t % 256) (byte-suc x i))

to_bytes-last : (n x : ℕ) → to_bytes (suc n) x ≡ to_bytes n x ++ (x / 256 ^ n % 256) ∷ []
to_bytes-last zero x = ap (λ (t : ℕ). (t % 256) ∷ []) (sym (div-one x))
to_bytes-last (suc n) x = ap (◌∷◌ (x % 256)) (
    to_bytes-last n (x / 256)
    ∙ ap (λ (t : ℕ). to_bytes n (x / 256) ++ (t % 256) ∷ []) (sym (byte-suc x n)))

read_bytes-big :
    (memory : Memory) (address n x : ℕ)
    → ((i : ℕ) → i < n → memory (address + i) ≡ x / 256 ^ (n - i - 1) % 256)
    → read_bytes memory address n ≡ reverse (to_bytes n x)
read_bytes-big memory address zero x h = refl
read_bytes-big memory address (suc n) x h =
    ap₂ ◌∷◌
      (ap memory (sym (add-zero address))
        ∙ h 0 (omega arith)
        ∙ ap (λ (t : ℕ). x / 256 ^ t % 256) (omega arith))
      (read_bytes-big memory (address + 1) n x λ i lt.
        ap memory (omega arith)
        ∙ h (suc i) (omega arith)
        ∙ ap (λ (t : ℕ). x / 256 ^ t % 256) (omega arith))
    ∙ sym
        (ap reverse (to_bytes-last n x) ∙ reverse-append (to_bytes n x) ((x / 256 ^ n % 256) ∷ []))

pub read_bytes-store_loop :
    (memory : Memory) (address : ℕ) (little : Bool) (n bits : ℕ)
    → read_bytes (store_loop memory address little n n 0 bits) address n
      ≡ in_order little (to_bytes n bits)
read_bytes-store_loop memory address true n bits = read_bytes-little _ address n bits λ i lt.
    store_loop-inside address true n bits n 0 i memory (omega arith) (omega arith)
    ∙ ap (λ (t : ℕ). bits / t % 256) (pow_256 i)
read_bytes-store_loop memory address false n bits = read_bytes-big _ address n bits λ i lt.
    store_loop-inside address false n bits n 0 i memory (omega arith) (omega arith)
    ∙ ap (λ (t : ℕ). bits / t % 256) (pow_256 (n - i - 1))

pub store_loop-HoldsBytes :
    (address : ℕ) (little : Bool) (bytes bits rounds index : ℕ) (memory : Memory)
    → HoldsBytes memory
    → HoldsBytes (store_loop memory address little bytes rounds index bits)
store_loop-HoldsBytes address little bytes bits zero index memory h = unfold store_loop in h
store_loop-HoldsBytes address little bytes bits (suc rounds) index memory h =
    rw (store_loop-suc address little bytes bits rounds index memory) (
      store_loop-HoldsBytes address little bytes bits rounds (index + 1) _ λ a. ground (arith, h a))
