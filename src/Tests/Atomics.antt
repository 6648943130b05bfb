-- ===== src/Tests/Atomics.antt =====
-- Atomic accesses (src/ir/atomic_access.cpp) of two bytes at address 68, in a region of 32 bytes at
-- address 64.
use uni_jit.Common.{ℕ, ◌≡◌, refl, true, false, some, [], arith}
use uni_jit.Status.{success}
use uni_jit.Ir.Opcode.{MemoryWidth, MemoryByteOrder}
use uni_jit.Runtime.Context.{ExitReason, ExecutionContext}
use uni_jit.Memory.{resolve, check_region}
use uni_jit.Memory.Loops.{Memory, load_loop, store_loop}
use uni_jit.Memory.Atomics.{
  AtomicMemoryOrder, AtomicCompareExchangeStrength, AtomicAccessDescriptor, AtomicOperation,
  width_mask, perform_atomic, access_bounded_atomic,
}
use uni_jit.Memory.Atomics.Accesses.{access_bounded_atomic-load}
use uni_jit.Memory.Atomics.Effects.{Effect}

abbrev region_context : ExecutionContext
region_context = record {
  interrupt_requested = 0;
  exit_reason = ExitReason.no_exit;
  exit_site = 0;
  exit_value = 0;
  captured_values = [];
  safepoint_polls = 0;
  memory_regions = some (λ id. record { base = 64; size = 32; writable = true });
  memory_region_count = 1;
}

abbrev counter : AtomicAccessDescriptor
counter = record {
  memory = record {
    region = 0;
    alias_class = 0;
    width = MemoryWidth.k16;
    alignment = 2;
    byte_order = MemoryByteOrder.native;
    sign_extend = false;
    is_volatile = false;
  };
  order = AtomicMemoryOrder.relaxed;
  failure_order = AtomicMemoryOrder.relaxed;
  strength = AtomicCompareExchangeStrength.strong;
}

abbrev no_bytes : Memory
no_bytes address = 0

counter_added :
    access_bounded_atomic true no_bytes counter AtomicOperation.fetch_add 4 65537 0 9
      (some region_context)
    ≡ (store_loop no_bytes 68 true 8 2 0 1, some region_context, success (0, false))
unfolding access_bounded_atomic resolve check_region perform_atomic width_mask load_loop
counter_added = refl

comparison_fails :
    access_bounded_atomic true no_bytes counter AtomicOperation.compare_exchange 4 3 5 9
      (some region_context)
    ≡ (no_bytes, some region_context, success (0, false))
unfolding access_bounded_atomic resolve check_region perform_atomic width_mask load_loop
comparison_fails = refl

counter_example :
    (observed : ℕ) × (access_bounded_atomic true no_bytes counter AtomicOperation.load 4 0 0 9
        (some region_context)
      ≡ (no_bytes, some region_context, success (observed, false)))
    × ((after : ℕ) × (access_bounded_atomic true
            (store_loop no_bytes 68 true 8 2 0 1)
            counter
            AtomicOperation.load
            4
            0
            0
            9
            (some region_context)
          ≡ (store_loop no_bytes 68 true 8 2 0 1, some region_context, success (after, false)))
        × Effect AtomicOperation.fetch_add 2 observed 65537 0 after 0 false)
counter_example =
    access_bounded_atomic-load no_bytes (store_loop no_bytes 68 true 8 2 0 1) counter
      AtomicOperation.fetch_add 4 65537 0 9 0 false region_context (some region_context)
      counter_added (λ a. omega arith) (omega arith)
