-- ===== src/Memory/Atomics.antt =====
-- src/ir/atomic_access.cpp and include/unijit/ir/atomic.h: atomic accesses of the interpreter. A mutex
-- makes an access one step on the memory, and the order that an access asks for adds nothing to it.
pub mod Effects
pub mod Accesses
use uni_jit.Common.{
  ℕ, ◌+◌, ◌-◌, ◌*◌, ◌%◌, ◌^◌, bit_and, bit_or, bit_xor, Bool, true, false, Option, ◌==◌,
  if◌then◌else◌,
}
use uni_jit.Status.{Result, success, failure}
use uni_jit.Runtime.Context.{ExecutionContext}
use uni_jit.Memory.{MemoryAccessDescriptor, ResolvedMemoryAccess, resolve}
use uni_jit.Memory.Loops.{Memory, load_loop, store_loop}

pub data AtomicMemoryOrder : Type 0 where
  relaxed acquire release acquire_release sequentially_consistent : AtomicMemoryOrder

pub data AtomicCompareExchangeStrength : Type 0 where
  strong weak : AtomicCompareExchangeStrength

pub record AtomicAccessDescriptor : Type 0 where
  pub memory : MemoryAccessDescriptor
  pub order : AtomicMemoryOrder
  pub failure_order : AtomicMemoryOrder
  pub strength : AtomicCompareExchangeStrength

pub data AtomicOperation : Type 0 where
  load store exchange compare_exchange fetch_add fetch_and fetch_or fetch_xor : AtomicOperation

unfoldable pub width_mask : ℕ → ℕ
width_mask width = if width == 8 then 2 ^ 64 - 1 else 2 ^ (width * 8) - 1

abbrev pub modifies : AtomicOperation → Bool
modifies AtomicOperation.load = false
modifies _ = true

-- The replacement, whether it is written, and whether a comparison succeeds.
unfoldable pub perform_atomic : AtomicOperation → ℕ → ℕ → ℕ → ℕ → ℕ × Bool × Bool
perform_atomic AtomicOperation.load mask observed operand desired = (observed, false, false)
perform_atomic AtomicOperation.store mask observed operand desired = (operand, true, false)
perform_atomic AtomicOperation.exchange mask observed operand desired = (operand, true, false)
perform_atomic AtomicOperation.compare_exchange mask observed operand desired =
    (desired, observed == operand, observed == operand)
perform_atomic AtomicOperation.fetch_add mask observed operand desired =
    (bit_and ((observed + operand) % 2 ^ 64) mask, true, false)
perform_atomic AtomicOperation.fetch_and mask observed operand desired =
    (bit_and observed operand, true, false)
perform_atomic AtomicOperation.fetch_or mask observed operand desired =
    (bit_or observed operand, true, false)
perform_atomic AtomicOperation.fetch_xor mask observed operand desired =
    (bit_xor observed operand, true, false)

abbrev pub atomic_result : AtomicOperation → ℕ → ℕ → ℕ
atomic_result AtomicOperation.store value observed = value
atomic_result _ value observed = observed

-- memcpy of `width` bytes into, and from, a word of eight bytes.
abbrev pub observe : Bool → Memory → ℕ → ℕ → ℕ
observe host memory address width =
    bit_and (load_loop memory address host 8 width 0 0) (width_mask width)

abbrev pub write_replacement : Bool → Memory → ℕ → ℕ → ℕ × Bool × Bool → Memory
write_replacement host memory address width (replacement, write, succeeds) =
    if write then store_loop memory address host 8 width 0 replacement else memory

abbrev pub access_resolved :
    Bool
    → Memory
    → AtomicOperation
    → ℕ
    → ℕ
    → Option ExecutionContext × Result ResolvedMemoryAccess
    → Memory × Option ExecutionContext × Result (ℕ × Bool)
access_resolved host memory operation value desired (context, failure s) =
    (memory, context, failure s)
access_resolved host memory operation value desired (context, success r) =
    let observed = observe host memory r.address r.bytes in
    let mask = width_mask r.bytes in
    let performed =
      perform_atomic operation mask observed (bit_and value mask) (bit_and desired mask) in
    (
      write_replacement host memory r.address r.bytes performed,
      context,
      success (atomic_result operation value observed, performed.2),
    )

unfoldable pub access_bounded_atomic :
    Bool
    → Memory
    → AtomicAccessDescriptor
    → AtomicOperation
    → ℕ
    → ℕ
    → ℕ
    → ℕ
    → Option ExecutionContext
    → Memory × Option ExecutionContext × Result (ℕ × Bool)
access_bounded_atomic host memory access operation byte_offset value desired site context =
    access_resolved host memory operation value desired
      (resolve access.memory byte_offset site context (modifies operation))
