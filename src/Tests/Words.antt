-- ===== src/Tests/Words.antt =====
-- Division and byte swaps (src/ir/function.cpp) on concrete words.
use mathlib.Core.List.{reverse}
use uni_jit.Common.{◌^◌, ◌-◌, ◌≡◌, arith}
use uni_jit.Common.Bytes.{to_bytes, from_bytes}
use uni_jit.Word.Floor.Exact.{FloorDivides}
use uni_jit.Word.Floor.{floor_divide_word_floors}
use uni_jit.Word.ByteSwap.{byte_swap_word, byte_swap_word_reverses}
use uni_jit.Ir.Opcode.{MemoryWidth}

-- -7 divided by 2.
floor_divide_word_floors_example : FloorDivides (2 ^ 64 - 7) 2
floor_divide_word_floors_example =
    floor_divide_word_floors (2 ^ 64 - 7) 2 (omega arith) (omega arith) (omega arith) (ground arith)

byte_swap_word_reverses_example :
    byte_swap_word 4660 MemoryWidth.k16 ≡ from_bytes (reverse (to_bytes 2 4660))
byte_swap_word_reverses_example = byte_swap_word_reverses 4660 MemoryWidth.k16 (omega arith) _
