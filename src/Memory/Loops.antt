-- ===== src/Memory/Loops.antt =====
-- The byte loops of load_bounded_word and store_bounded_word (src/ir/memory_access.cpp).
use uni_jit.Common.{ℕ, zero, suc, ◌+◌, ◌-◌, ◌*◌, ◌/◌, ◌%◌, ◌^◌, bit_or, Bool, ◌==◌, if◌then◌else◌}

abbrev pub Memory : Type 0
Memory = ℕ → ℕ

abbrev pub write_byte : Memory → ℕ → ℕ → Memory
write_byte memory address value a = if a == address then value else memory a

abbrev pub shift_index : Bool → ℕ → ℕ → ℕ
shift_index little bytes index = if little then index else bytes - index - 1

-- `rounds` bytes are left, and `index` bytes are done.
unfoldable pub load_loop : Memory → ℕ → Bool → ℕ → ℕ → ℕ → ℕ → ℕ
load_loop memory address little bytes zero index bits = bits
load_loop memory address little bytes (suc rounds) index bits =
    load_loop memory address little bytes rounds (index + 1)
      (bit_or bits (memory (address + index) * 2 ^ (shift_index little bytes index * 8) % 2 ^ 64))

unfoldable pub store_loop : Memory → ℕ → Bool → ℕ → ℕ → ℕ → ℕ → Memory
store_loop memory address little bytes zero index bits = memory
store_loop memory address little bytes (suc rounds) index bits =
    store_loop
      (write_byte memory (address + index) (bits / 2 ^ (shift_index little bytes index * 8) % 256))
      address little bytes rounds (index + 1) bits
