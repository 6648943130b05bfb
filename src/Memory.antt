-- ===== src/Memory.antt =====
-- src/ir/memory_access.cpp and include/unijit/ir/memory.h: bounded access to host memory.
-- Host memory is a function from an address to the byte there, so that regions may overlap.
pub mod Loops
pub mod Bytes
pub mod Store
pub mod Access
pub mod Extension
pub mod RoundTrip
pub mod Objects
pub mod Atomics
use uni_jit.Common.{
  ℕ, suc, ◌+◌, ◌-◌, ◌*◌, ◌/◌, ◌%◌, ◌^◌, bit_and, bit_or, Bool, true, false, not, ◌&&◌, ◌||◌, Option,
  none, some, ltb, leb, ◌==◌, if◌then◌else◌,
}
use uni_jit.Status.{StatusCode, Status, status, Result, success, failure}
use uni_jit.Ir.Opcode.{MemoryWidth, MemoryByteOrder, memory_width_bytes}
use uni_jit.Runtime.Context.{ExitReason, MemoryRegion, ExecutionContext, record_exit}
use Loops.{Memory, load_loop, store_loop}

pub record MemoryAccessDescriptor : Type 0 where
  pub region : ℕ
  pub alias_class : ℕ
  pub width : MemoryWidth
  pub alignment : ℕ
  pub byte_order : MemoryByteOrder
  pub sign_extend : Bool
  pub is_volatile : Bool

pub record ResolvedMemoryAccess : Type 0 where
  pub address : ℕ
  pub bytes : ℕ

abbrev pub failed : Option ExecutionContext → ℕ → ℕ → Option ExecutionContext
failed none site byte_offset = none
failed (some c) site byte_offset = some (record_exit ExitReason.runtime site byte_offset c)

abbrev pub access_failure {ℓ} :
    {A : Type ℓ} → Option ExecutionContext → ℕ → ℕ → Option ExecutionContext × Result A
access_failure context site byte_offset =
    (failed context site byte_offset, failure (status StatusCode.runtime_exit site))

-- The checks on the region that the access names.
unfoldable pub check_region :
    MemoryAccessDescriptor
    → ℕ
    → ℕ
    → ExecutionContext
    → Bool
    → MemoryRegion
    → Option ExecutionContext × Result ResolvedMemoryAccess
check_region access byte_offset site context store region =
    let bytes = memory_width_bytes access.width in
    let address = region.base + byte_offset in
    if store && not region.writable
    then access_failure (some context) site byte_offset
    else if bytes == 0 || ltb region.size bytes || ltb (region.size - bytes) byte_offset
    then access_failure (some context) site byte_offset
    else if access.alignment == 0 || not (bit_and address (access.alignment - 1) == 0)
    then access_failure (some context) site byte_offset
    else (some context, success (record { address = address; bytes = bytes }))

unfoldable pub resolve :
    MemoryAccessDescriptor
    → ℕ
    → ℕ
    → Option ExecutionContext
    → Bool
    → Option ExecutionContext × Result ResolvedMemoryAccess
unfolding check_region
resolve access byte_offset site none store = access_failure none site byte_offset
resolve access byte_offset site (some context) store = elim context.memory_regions [
  | none ↦ access_failure (some context) site byte_offset
  | some regions ↦
      if leb context.memory_region_count access.region
      then access_failure (some context) site byte_offset
      else check_region access byte_offset site context store (regions access.region)
]

-- `host` says whether the host is little endian.
abbrev pub little_endian : Bool → MemoryByteOrder → Bool
little_endian host MemoryByteOrder.little_endian = true
little_endian host MemoryByteOrder.native = host
little_endian host MemoryByteOrder.big_endian = false

-- The extension of a value of `bytes` bytes by its sign.
unfoldable pub extend_sign : Bool → ℕ → ℕ → ℕ
extend_sign sign_extend bytes bits =
    if sign_extend && ltb bytes 8
    then if not (bit_and bits (2 ^ (bytes * 8 - 1)) == 0)
      then bit_or bits (2 ^ 64 - 2 ^ (bytes * 8))
      else bits
    else bits

-- What the two operations do once the access is resolved, or refused.
abbrev pub load_resolved :
    Bool
    → Memory
    → MemoryAccessDescriptor
    → Option ExecutionContext × Result ResolvedMemoryAccess
    → Option ExecutionContext × Result ℕ
load_resolved host memory access (context, failure s) = (context, failure s)
load_resolved host memory access (context, success r) = (
  context,
  success (
      extend_sign access.sign_extend r.bytes
        (load_loop memory r.address (little_endian host access.byte_order) r.bytes r.bytes 0 0)),
)

abbrev pub store_resolved :
    Bool
    → Memory
    → MemoryAccessDescriptor
    → ℕ
    → Option ExecutionContext × Result ResolvedMemoryAccess
    → Memory × Option ExecutionContext × Result ℕ
store_resolved host memory access value (context, failure s) = (memory, context, failure s)
store_resolved host memory access value (context, success r) = (
  store_loop memory r.address (little_endian host access.byte_order) r.bytes r.bytes 0 value,
  context,
  success value,
)

unfoldable pub load_bounded_word :
    Bool
    → Memory
    → MemoryAccessDescriptor
    → ℕ
    → ℕ
    → Option ExecutionContext
    → Option ExecutionContext × Result ℕ
load_bounded_word host memory access byte_offset site context =
    load_resolved host memory access (resolve access byte_offset site context false)

unfoldable pub store_bounded_word :
    Bool
    → Memory
    → MemoryAccessDescriptor
    → ℕ
    → ℕ
    → ℕ
    → Option ExecutionContext
    → Memory × Option ExecutionContext × Result ℕ
store_bounded_word host memory access byte_offset value site context =
    store_resolved host memory access value (resolve access byte_offset site context true)
