-- ===== src/Tests/Accesses.antt =====
-- Bounded memory (src/ir/memory_access.cpp) on a region of 32 bytes at address 64.
use uni_jit.Common.{ℕ, ◌+◌, ◌%◌, ◌^◌, ◌≤◌, ◌<◌, ◌≡◌, refl, inl, Bool, true, false, some, [], arith}
use uni_jit.Status.{StatusCode, status, success, failure}
use uni_jit.Ir.Opcode.{MemoryWidth, MemoryByteOrder}
use uni_jit.Runtime.Context.{ExitReason, MemoryRegion, ExecutionContext}
use uni_jit.Memory.{
  MemoryAccessDescriptor, ResolvedMemoryAccess, failed, resolve, check_region, extend_sign,
  load_bounded_word, store_bounded_word,
}
use uni_jit.Memory.Loops.{Memory, store_loop}
use uni_jit.Memory.Extension.{Extended}
use uni_jit.Memory.Access.{Inside, Allowed, LeftAt, resolve-Inside, resolve_succeeds, resolve_fails}
use uni_jit.Memory.RoundTrip.{
  load_bounded_word-store_bounded_word, store_bounded_word-Inside, store_bounded_word-frame,
}

abbrev one_region : ℕ → MemoryRegion
one_region id = record { base = 64; size = 32; writable = true }

abbrev one_region_context : ExecutionContext
one_region_context = record {
  interrupt_requested = 0;
  exit_reason = ExitReason.no_exit;
  exit_site = 0;
  exit_value = 0;
  captured_values = [];
  safepoint_polls = 0;
  memory_regions = some one_region;
  memory_region_count = 1;
}

abbrev half_word : MemoryAccessDescriptor
half_word = record {
  region = 0;
  alias_class = 0;
  width = MemoryWidth.k16;
  alignment = 2;
  byte_order = MemoryByteOrder.big_endian;
  sign_extend = true;
  is_volatile = false;
}

abbrev blank : Memory
blank address = 0

abbrev place : ResolvedMemoryAccess
place = record { address = 68; bytes = 2 }

half_word_resolves :
    (store : Bool)
    → resolve half_word 4 9 (some one_region_context) store
      ≡ (some one_region_context, success place)
unfolding resolve check_region
half_word_resolves true = refl
half_word_resolves false = refl

half_word_stored :
    store_bounded_word true blank half_word 4 65280 9 (some one_region_context)
    ≡ (store_loop blank 68 false 2 2 0 65280, some one_region_context, success 65280)
unfolding store_bounded_word resolve check_region
half_word_stored = refl

resolve_example :
    (regions : (ℕ → MemoryRegion)) × (some one_region ≡ some regions)
    × (0 < 1)
    × (some one_region_context ≡ some one_region_context)
    × Inside half_word 4 true (regions 0) place
resolve_example =
    resolve-Inside half_word 4 9 one_region_context true (some one_region_context) place
      (half_word_resolves true)

resolve_succeeds_example :
    resolve half_word 4 9 (some one_region_context) true ≡ (some one_region_context, success place)
resolve_succeeds_example =
    resolve_succeeds half_word 4 9 one_region_context true one_region refl (omega arith) (λ h. refl)
      (omega arith) (omega arith) refl

out_of_range :
    resolve half_word 31 9 (some one_region_context) false
    ≡ (failed (some one_region_context) 9 31, failure (status StatusCode.runtime_exit 9))
unfolding resolve check_region
out_of_range = refl

resolve_fails_example :
    (Allowed half_word 31 false (some one_region_context) → ⊥)
    × (StatusCode.runtime_exit ≡ StatusCode.runtime_exit)
    × (◌≡◌ {A = ℕ} 9 9)
    × LeftAt 9 31 (some one_region_context) (failed (some one_region_context) 9 31)
resolve_fails_example =
    resolve_fails half_word 31 9 (some one_region_context) (failed (some one_region_context) 9 31)
      false (status StatusCode.runtime_exit 9) out_of_range

load_store_example :
    (load_bounded_word true
        (store_loop blank 68 false 2 2 0 65280)
        half_word
        4
        9
        (some one_region_context)
      ≡ (some one_region_context, success (extend_sign true 2 (65280 % 256 ^ 2))))
    × Extended true 2 (65280 % 256 ^ 2) (extend_sign true 2 (65280 % 256 ^ 2))
load_store_example =
    load_bounded_word-store_bounded_word true blank (store_loop blank 68 false 2 2 0 65280)
      half_word 4 65280 9 one_region_context (some one_region_context) 65280 half_word_stored
      (λ a. omega arith) (omega arith)

store_inside_example :
    (regions : (ℕ → MemoryRegion)) × (some one_region ≡ some regions)
    × (0 < 1)
    × ((regions 0).writable ≡ true)
    × (4 + 2 ≤ (regions 0).size)
    × (◌≡◌ {A = ℕ} 65280 65280)
    × (some one_region_context ≡ some one_region_context)
store_inside_example =
    store_bounded_word-Inside true blank (store_loop blank 68 false 2 2 0 65280) half_word 4 65280 9
      one_region_context (some one_region_context) 65280 half_word_stored

store_frame_example : store_loop blank 68 false 2 2 0 65280 67 ≡ 0
store_frame_example =
    store_bounded_word-frame true blank (store_loop blank 68 false 2 2 0 65280) half_word 4 65280 9
      one_region_context (some one_region_context) 65280 half_word_stored one_region 67 refl
      (inl (omega arith))
