-- ===== src/Memory/Atomics/Accesses.antt =====
-- Atomic accesses after one another (src/ir/atomic_access.cpp), on a host that is little endian.
use mathlib.Core.Path.{ap₂, subst}
use native.Mathlib.Nat.{add-zero}
use uni_jit.Common.{
  ℕ, zero, suc, ◌+◌, ◌*◌, ◌%◌, ◌^◌, ◌≤◌, ap, sym, ◌∙◌, ◌≡◌, refl, bit_and, Bool, true, false,
  Option, some, arith,
}
use uni_jit.Common.Bits.{and-ones}
use uni_jit.Common.Bytes.{from_bytes, AreBytes, from_bytes-lt, from_bytes-to_bytes}
use uni_jit.Status.{Result, success, failure}
use uni_jit.Ir.Opcode.{memory_width_bytes}
use uni_jit.Runtime.Context.{ExecutionContext}
use uni_jit.Memory.{ResolvedMemoryAccess, resolve}
use uni_jit.Memory.Loops.{Memory, load_loop, store_loop}
use uni_jit.Memory.Bytes.{read_bytes, length-read_bytes, pow_256, HoldsBytes, load_loop-little}
use uni_jit.Memory.Store.{read_bytes-store_loop, store_loop-HoldsBytes}
use uni_jit.Memory.Access.{resolve-Inside, resolve_succeeds}
use uni_jit.Memory.Atomics.Effects.{Effect, width_mask_ones, settled, performed, performed-Effect}
use uni_jit.Memory.Atomics.{
  AtomicAccessDescriptor, AtomicOperation, modifies, perform_atomic, atomic_result, observe,
  write_replacement, access_resolved, access_bounded_atomic,
}

store_loop-width :
    (address bytes bytes' bits rounds index : ℕ) (memory : Memory)
    → store_loop memory address true bytes rounds index bits
      ≡ store_loop memory address true bytes' rounds index bits
unfolding store_loop
store_loop-width address bytes bytes' bits zero index memory = refl
store_loop-width address bytes bytes' bits (suc rounds) index memory =
    store_loop-width address bytes bytes' bits rounds (index + 1) _

read_bytes-AreBytes :
    (memory : Memory) (address n : ℕ) → HoldsBytes memory → AreBytes (read_bytes memory address n)
read_bytes-AreBytes memory address zero holds = _
read_bytes-AreBytes memory address (suc n) holds =
    (holds address, read_bytes-AreBytes memory (address + 1) n holds)

-- What an access observes is the number that the bytes there spell.
observe_bytes :
    (memory : Memory) (address n : ℕ)
    → HoldsBytes memory
    → n ≤ 8
    → observe true memory address n ≡ from_bytes (read_bytes memory address n)
observe_bytes memory address n holds h =
    let found : load_loop memory address true 8 n 0 0 ≡ from_bytes (read_bytes memory address n) =
      load_loop-little memory address holds 8 n 0 0 (omega arith) (omega arith)
      ∙ omega (arith, ap (λ (t : ℕ). from_bytes (read_bytes memory t n)) (add-zero address)) in
    ap₂ bit_and found (width_mask_ones n h)
    ∙ and-ones (n * 8) (from_bytes (read_bytes memory address n)) (
        omega (
          arith,
          from_bytes-lt (read_bytes memory address n) (read_bytes-AreBytes memory address n holds),
          ap (λ (t : ℕ). 256 ^ t) (length-read_bytes memory address n),
          pow_256 n,
        ))

observe_written :
    (memory : Memory) (address n bits : ℕ)
    → HoldsBytes memory
    → n ≤ 8
    → observe true (store_loop memory address true 8 n 0 bits) address n ≡ bits % 256 ^ n
observe_written memory address n bits holds h =
    observe_bytes (store_loop memory address true 8 n 0 bits) address n
      (store_loop-HoldsBytes address true 8 bits n 0 memory holds) h
    ∙ ap (λ (m : Memory). from_bytes (read_bytes m address n))
        (store_loop-width address 8 n bits n 0 memory)
    ∙ ap from_bytes (read_bytes-store_loop memory address true n bits)
    ∙ from_bytes-to_bytes n bits

observe-settled :
    (memory : Memory) (address n : ℕ) (p : ℕ × Bool × Bool)
    → HoldsBytes memory
    → n ≤ 8
    → observe true (write_replacement true memory address n p) address n
      ≡ settled n (observe true memory address n) p
observe-settled memory address n (x, true, s) holds h = observe_written memory address n x holds h
observe-settled memory address n (x, false, s) holds h = refl

atomic_load :
    (memory : Memory) (access : AtomicAccessDescriptor) (byte_offset site : ℕ)
    (c : ExecutionContext) (r : ResolvedMemoryAccess)
    → resolve access.memory byte_offset site (some c) false ≡ (some c, success r)
    → access_bounded_atomic true memory access AtomicOperation.load byte_offset 0 0 site (some c)
      ≡ (memory, some c, success (observe true memory r.address r.bytes, false))
unfolding access_bounded_atomic perform_atomic
atomic_load memory access byte_offset site c r e =
    ap (access_resolved true memory AtomicOperation.load 0 0) e

-- An access that succeeds was resolved, and did what its operation performs.
access_was_resolved :
    (memory memory' : Memory) (access : AtomicAccessDescriptor) (operation : AtomicOperation)
    (byte_offset value desired site result : ℕ) (succeeds : Bool)
    (context context' : Option ExecutionContext)
    → access_bounded_atomic true memory access operation byte_offset value desired site context
      ≡ (memory', context', success (result, succeeds))
    → (r : ResolvedMemoryAccess) × (resolve access.memory byte_offset site context
          (modifies operation)
        ≡ (context', success r))
      × (access_resolved true memory operation value desired (context', success r)
          ≡ (memory', context', success (result, succeeds)))
access_was_resolved memory memory' access operation byte_offset value desired site result succeeds
      context context' h =
    go (resolve access.memory byte_offset site context (modifies operation))
      (unfold access_bounded_atomic in h)
  where
    go :
        (x : Option ExecutionContext × Result ResolvedMemoryAccess)
        → access_resolved true memory operation value desired x
          ≡ (memory', context', success (result, succeeds))
        → (r : ResolvedMemoryAccess) × (x ≡ (context', success r))
          × (access_resolved true memory operation value desired (context', success r)
              ≡ (memory', context', success (result, succeeds)))
    go (c', failure s) e = absurd (ground (arith, e))
    go (c', success r) e =
        let same : c' ≡ context' = ap (λ p. p.1) e in
        (
          r,
          ap (λ t. (t, success r)) same,
          ap (λ t. access_resolved true memory operation value desired (t, success r)) (sym same)
              ∙ e,
        )

module _ (memory memory' : Memory) (access : AtomicAccessDescriptor) (operation : AtomicOperation)
    (byte_offset value desired site result : ℕ) (succeeds : Bool) (c : ExecutionContext)
    (context' : Option ExecutionContext) where
  -- After an atomic access that succeeds, on a host that is little endian and memory that holds
  -- bytes, at most eight bytes wide: an atomic load in its place would have observed some value, and an
  -- atomic load behind it observes the effect of the operation on that value. A store and an exchange
  -- leave the operand; a comparison leaves the desired value and says so if the value is the operand, and
  -- leaves the value otherwise; the others leave the sum, or the bitwise and, or, and exclusive or
  -- with the operand, all cut to the width. A store gives its operand, all others the value before.
  pub access_bounded_atomic-load :
      access_bounded_atomic true memory access operation byte_offset value desired site (some c)
        ≡ (memory', context', success (result, succeeds))
      → HoldsBytes memory
      → memory_width_bytes access.memory.width ≤ 8
      → (observed : ℕ) × (access_bounded_atomic true memory access AtomicOperation.load byte_offset
            0 0 site
            (some c)
          ≡ (memory, some c, success (observed, false)))
        × ((after : ℕ) × (access_bounded_atomic true memory' access AtomicOperation.load byte_offset
                0 0 site
                (some c)
              ≡ (memory', some c, success (after, false)))
            × Effect operation
                (memory_width_bytes access.memory.width)
                observed
                value
                desired
                after
                result
                succeeds)
  access_bounded_atomic-load accessed holds narrow =
      let (r, resolved, done) =
        access_was_resolved memory memory' access operation byte_offset value desired site result
          succeeds (some c) context' accessed in
      let (regions, bound, listed, kept, inside) =
        resolve-Inside access.memory byte_offset site c (modifies operation) context' r resolved in
      let n : ℕ = memory_width_bytes access.memory.width in
      let place : ℕ = (regions access.memory.region).base + byte_offset in
      let again =
        resolve_succeeds access.memory byte_offset site c false regions bound listed
          (λ h. ground (arith, h)) inside.fits inside.positive inside.aligned in
      let observed : ℕ = observe true memory place n in
      let written : memory'
          ≡ write_replacement true memory place n (performed n operation observed value desired) =
        sym (ap (λ p. p.0) done)
        ∙ ap₂
            (λ (a b : ℕ).
              write_replacement true memory a b
                (performed b operation (observe true memory a b) value desired))
            inside.address inside.bytes in
      let p : ℕ × Bool × Bool = performed n operation observed value desired in
      let gives : result ≡ atomic_result operation value observed =
        sym (ground (arith, ap (λ p. p.2) done))
        ∙ ap₂ (λ (a b : ℕ). atomic_result operation value (observe true memory a b)) inside.address
            inside.bytes in
      let says : succeeds ≡ p.2 =
        sym (ground (arith, ap (λ p. p.2) done))
        ∙ ap₂ (λ (a b : ℕ). (performed b operation (observe true memory a b) value desired).2)
            inside.address inside.bytes in
      (
        observed,
        atomic_load memory access byte_offset site c (record { address = place; bytes = n }) again,
        (
          settled n observed p,
          atomic_load memory' access byte_offset site c (record { address = place; bytes = n })
                again
              ∙ ap (λ (t : ℕ). (memory', some c, success (t, false)))
                  (ap (λ (m : Memory). observe true m place n) written
                    ∙ observe-settled memory place n p holds narrow),
          subst
              (λ (t : ℕ).
                Effect operation n observed value desired (settled n observed p) t succeeds)
              (sym gives)
              (subst
                (λ (b : Bool).
                  Effect operation n observed value desired (settled n observed p)
                    (atomic_result operation value observed) b)
                (sym says) (performed-Effect operation n observed value desired narrow)),
        ),
      )
