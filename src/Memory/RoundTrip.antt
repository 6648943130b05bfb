-- ===== src/Memory/RoundTrip.antt =====
-- A bounded load after a bounded store (src/ir/memory_access.cpp).
use mathlib.Core.Path.{ap₂}
use mathlib.Core.List.{reverse, reverse-reverse}
use native.Mathlib.Nat.{add-zero, mod-lt, one-le-pow}
use uni_jit.Common.{
  ℕ, ◌+◌, ◌*◌, ◌%◌, ◌^◌, ◌≤◌, ◌<◌, ap, sym, ◌∙◌, ◌≡◌, refl, ◌⊎◌, Bool, true, false, Option, some,
  List, arith,
}
use uni_jit.Common.Bytes.{to_bytes, from_bytes, from_bytes-to_bytes}
use uni_jit.Status.{Result, success, failure}
use uni_jit.Ir.Opcode.{memory_width_bytes}
use uni_jit.Runtime.Context.{MemoryRegion, ExecutionContext}
use uni_jit.Memory.{
  MemoryAccessDescriptor, ResolvedMemoryAccess, resolve, little_endian, extend_sign,
  load_bounded_word, store_bounded_word, load_resolved, store_resolved,
}
use uni_jit.Memory.Loops.{Memory, load_loop, store_loop}
use uni_jit.Memory.Bytes.{
  pow_256, read_bytes, in_order, HoldsBytes, load_loop-little, load_loop-big,
}
use uni_jit.Memory.Store.{store_loop-outside, read_bytes-store_loop, store_loop-HoldsBytes}
use uni_jit.Memory.Extension.{Extended, extend_sign-Extended}
use uni_jit.Memory.Access.{resolve-Inside, resolve_succeeds}

load_loop-read_bytes :
    (memory : Memory) (address : ℕ) (little : Bool) (n : ℕ)
    → HoldsBytes memory
    → n ≤ 8
    → load_loop memory address little n n 0 0
      ≡ from_bytes (in_order little (read_bytes memory address n))
load_loop-read_bytes memory address true n holds h =
    load_loop-little memory address holds n n 0 0 (omega arith) (omega arith)
    ∙ omega (arith, ap (λ (t : ℕ). from_bytes (read_bytes memory t n)) (add-zero address))
load_loop-read_bytes memory address false n holds h =
    ap (load_loop memory address false n n 0) (omega arith)
    ∙ load_loop-big memory address holds n n 0 0 (omega arith) h (omega arith)
    ∙ omega (arith, ap (λ (t : ℕ). from_bytes (reverse (read_bytes memory t n))) (add-zero address))

-- A byte loop of loads undoes a byte loop of stores in the same order.
pub load_loop-store_loop :
    (memory : Memory) (address : ℕ) (little : Bool) (n value : ℕ)
    → HoldsBytes memory
    → n ≤ 8
    → load_loop (store_loop memory address little n n 0 value) address little n n 0 0
      ≡ value % 256 ^ n
load_loop-store_loop memory address little n value holds h =
    load_loop-read_bytes (store_loop memory address little n n 0 value) address little n
      (store_loop-HoldsBytes address little n value n 0 memory holds) h
    ∙ ap (λ (bs : List ℕ). from_bytes (in_order little bs))
        (read_bytes-store_loop memory address little n value)
    ∙ ap from_bytes (in_order-twice little (to_bytes n value))
    ∙ from_bytes-to_bytes n value
  where
    in_order-twice : (b : Bool) (bs : List ℕ) → in_order b (in_order b bs) ≡ bs
    in_order-twice true bs = refl
    in_order-twice false bs = reverse-reverse bs

pub some_injective {ℓ} : {A : Type ℓ} {x y : A} → some x ≡ some y → x ≡ y
some_injective h = ground (arith, h)

-- A store that succeeds was resolved, and wrote the bytes of the value.
store_was_resolved :
    (host : Bool) (memory memory' : Memory) (access : MemoryAccessDescriptor)
    (byte_offset value site v : ℕ) (context context' : Option ExecutionContext)
    → store_bounded_word host memory access byte_offset value site context
      ≡ (memory', context', success v)
    → (r : ResolvedMemoryAccess) × (resolve access byte_offset site context true
        ≡ (context', success r))
      × (memory'
          ≡ store_loop memory r.address
              (little_endian host access.byte_order)
              r.bytes
              r.bytes
              0
              value)
      × (v ≡ value)
store_was_resolved host memory memory' access byte_offset value site v context context' stored =
    go (resolve access byte_offset site context true) (unfold store_bounded_word in stored)
  where
    go :
        (x : Option ExecutionContext × Result ResolvedMemoryAccess)
        → store_resolved host memory access value x ≡ (memory', context', success v)
        → (r : ResolvedMemoryAccess) × (x ≡ (context', success r))
          × (memory'
              ≡ store_loop memory r.address
                  (little_endian host access.byte_order)
                  r.bytes
                  r.bytes
                  0
                  value)
          × (v ≡ value)
    go (c', failure s) e = absurd (ground (arith, e))
    go (c', success r) e =
        (r, ap (λ p. (p.1, success r)) e, sym (ap (λ p. p.0) e), sym (ground (arith, e)))

module _ (host : Bool) (memory memory' : Memory) (access : MemoryAccessDescriptor)
    (byte_offset value site : ℕ) (c : ExecutionContext) (context' : Option ExecutionContext) (v : ℕ)
    (stored : store_bounded_word host memory access byte_offset value site (some c)
      ≡ (memory', context', success v)) where
  -- A bounded load of at most eight bytes after a bounded store at the same place succeeds, leaves
  -- the context alone, and gives the low bytes of the value stored; if the access asks for their sign and
  -- it is set, with ones above them. Memory holds bytes, and the store is a success.
  pub load_bounded_word-store_bounded_word :
      HoldsBytes memory
      → memory_width_bytes access.width ≤ 8
      → (load_bounded_word host memory' access byte_offset site (some c) ≡ (
        some c,
        success (
            extend_sign access.sign_extend
              (memory_width_bytes access.width)
              (value % 256 ^ memory_width_bytes access.width)),
      ))
        × Extended access.sign_extend
            (memory_width_bytes access.width)
            (value % 256 ^ memory_width_bytes access.width)
            (extend_sign access.sign_extend
              (memory_width_bytes access.width)
              (value % 256 ^ memory_width_bytes access.width))
  load_bounded_word-store_bounded_word holds narrow =
      let (r, resolved, written, same) =
        store_was_resolved host memory memory' access byte_offset value site v (some c) context'
          stored in
      let (regions, bound, listed, kept, inside) =
        resolve-Inside access byte_offset site c true context' r resolved in
      let again =
        resolve_succeeds access byte_offset site c false regions bound listed
          (λ h. ground (arith, h)) inside.fits inside.positive inside.aligned in
      let n : ℕ = memory_width_bytes access.width in
      let little : Bool = little_endian host access.byte_order in
      let place : ℕ = (regions access.region).base + byte_offset in
      let found : load_loop memory' place little n n 0 0 ≡ value % 256 ^ n =
        ap (λ (m : Memory). load_loop m place little n n 0 0)
          (written
            ∙ ap₂ (λ (a b : ℕ). store_loop memory a little b b 0 value) inside.address inside.bytes)
        ∙ load_loop-store_loop memory place little n value holds narrow in
      let low : value % 256 ^ n < 2 ^ (n * 8) =
        omega (arith, pow_256 n, mod-lt value (one-le-pow n 256 (omega arith))) in
      (
        unfold load_bounded_word in
            (ap (load_resolved host memory' access) again
              ∙ ap (λ (t : ℕ). (some c, success (extend_sign access.sign_extend n t))) found),
        extend_sign-Extended access.sign_extend access.width (value % 256 ^ n) narrow low,
      )

  -- A store that succeeds lies in a writable region that is bound, gives back the value and leaves
  -- the context alone.
  pub store_bounded_word-Inside :
      (regions : (ℕ → MemoryRegion)) × (c.memory_regions ≡ some regions)
      × (access.region < c.memory_region_count)
      × ((regions access.region).writable ≡ true)
      × (byte_offset + memory_width_bytes access.width ≤ (regions access.region).size)
      × (v ≡ value)
      × (context' ≡ some c)
  store_bounded_word-Inside =
      let (r, resolved, written, same) =
        store_was_resolved host memory memory' access byte_offset value site v (some c) context'
          stored in
      let (regions, bound, listed, kept, inside) =
        resolve-Inside access byte_offset site c true context' r resolved in
      (regions, bound, listed, inside.writable refl, inside.fits, same, kept)

  -- A store that succeeds changes only the bytes of its access: every address before or behind them
  -- keeps its byte.
  pub store_bounded_word-frame :
      (regions : (ℕ → MemoryRegion)) (x : ℕ)
      → c.memory_regions ≡ some regions
      → (x < (regions access.region).base + byte_offset)
        ⊎ ((regions access.region).base + byte_offset + memory_width_bytes access.width ≤ x)
      → memory' x ≡ memory x
  store_bounded_word-frame regions x there outside =
      let (r, resolved, written, same) =
        store_was_resolved host memory memory' access byte_offset value site v (some c) context'
          stored in
      let (regions', bound, listed, kept, inside) =
        resolve-Inside access byte_offset site c true context' r resolved in
      let one : regions' ≡ regions = some_injective (sym bound ∙ there) in
      let base = ap (λ (f : ℕ → MemoryRegion). (f access.region).base) one in
      ap (λ (m : Memory). m x) written
      ∙ store_loop-outside r.address (little_endian host access.byte_order) r.bytes value r.bytes 0
          x memory (omega (arith, inside.address, inside.bytes, base, outside))
