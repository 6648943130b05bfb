-- ===== src/Memory/Access.antt =====
-- Bounded loads and stores (src/ir/memory_access.cpp): they stay inside the region that they name,
-- and a load gives back what a store has put there.

use mathlib.Core.Path.{subst}
use uni_jit.Common.{
  ap, sym, ◌∙◌, refl, ℕ, ◌+◌, ◌-◌, ◌≤◌, ◌<◌, ◌≡◌, ◌≢◌, inl, inr, Bool, true, Option, none, some,
  arith, Option-cases, bit_and,
}
use uni_jit.Status.{StatusCode, Status, status, success, failure}
use uni_jit.Ir.Opcode.{memory_width_bytes}
use uni_jit.Runtime.Context.{ExitReason, MemoryRegion, ExecutionContext, record_exit}
use uni_jit.Memory.{MemoryAccessDescriptor, ResolvedMemoryAccess, failed, check_region, resolve}

-- A resolved access lies in its region, which is writable for a store, and is aligned.
pub record Inside (access : MemoryAccessDescriptor) (byte_offset : ℕ) (store : Bool)
    (region : MemoryRegion) (r : ResolvedMemoryAccess) : Type 0 where
  pub writable : store ≡ true → region.writable ≡ true
  pub fits : byte_offset + memory_width_bytes access.width ≤ region.size
  pub positive : access.alignment ≢ 0
  pub aligned : bit_and (region.base + byte_offset) (access.alignment - 1) ≡ 0
  pub address : r.address ≡ region.base + byte_offset
  pub bytes : r.bytes ≡ memory_width_bytes access.width

module _ (access : MemoryAccessDescriptor) (byte_offset site : ℕ) (c : ExecutionContext)
    (store : Bool) where
  check_region-Inside :
      (region : MemoryRegion) (context' : Option ExecutionContext) (r : ResolvedMemoryAccess)
      → check_region access byte_offset site c store region ≡ (context', success r)
      → (context' ≡ some c) × Inside access byte_offset store region r
  unfolding check_region
  check_region-Inside region context' r h = ground arith

  -- An access that succeeds names a bound region, lies inside it and leaves the context alone.
  pub resolve-Inside :
      (context' : Option ExecutionContext) (r : ResolvedMemoryAccess)
      → resolve access byte_offset site (some c) store ≡ (context', success r)
      → (regions : (ℕ → MemoryRegion)) × (c.memory_regions ≡ some regions)
        × (access.region < c.memory_region_count)
        × (context' ≡ some c)
        × Inside access byte_offset store (regions access.region) r
  resolve-Inside context' r h = elim (Option-cases c.memory_regions) [
    | inl e ↦ absurd (unbound e)
    | inr (regions, e) ↦
        let checked = bound regions e in
        (
          regions,
          e,
          checked.0,
          (check_region-Inside (regions access.region) context' r checked.1).0,
          (check_region-Inside (regions access.region) context' r checked.1).1,
        )
  ]
    where
      unbound : c.memory_regions ≡ none → ⊥
      unbound e = unfold resolve in ground arith

      bound :
          (regions : (ℕ → MemoryRegion))
          → c.memory_regions ≡ some regions
          → (access.region < c.memory_region_count)
            × (check_region access byte_offset site c store (regions access.region)
                ≡ (context', success r))
      bound regions e = unfold resolve in ground arith

  -- The checks are exact: an access inside a bound region, aligned and writable for a store,
  -- succeeds with its address and width, and leaves the context alone.
  pub resolve_succeeds :
      (regions : (ℕ → MemoryRegion))
      → c.memory_regions ≡ some regions
      → access.region < c.memory_region_count
      → (store ≡ true → (regions access.region).writable ≡ true)
      → byte_offset + memory_width_bytes access.width ≤ (regions access.region).size
      → access.alignment ≢ 0
      → bit_and ((regions access.region).base + byte_offset) (access.alignment - 1) ≡ 0
      → resolve access byte_offset site (some c) store ≡ (
        some c,
        success (record {
          address = (regions access.region).base + byte_offset;
          bytes = memory_width_bytes access.width;
        }),
      )
  unfolding resolve
  resolve_succeeds regions e bound writable fits power aligned = ground arith

-- An access that the context allows: its region is bound and listed, writable for a store, and has the
-- access inside it, at an address of its alignment.
abbrev pub Allowed : MemoryAccessDescriptor → ℕ → Bool → Option ExecutionContext → Type 0
Allowed access byte_offset store none = ⊥
Allowed access byte_offset store (some c) =
    (regions : (ℕ → MemoryRegion)) × (c.memory_regions ≡ some regions)
    × (access.region < c.memory_region_count)
    × (store ≡ true → (regions access.region).writable ≡ true)
    × (byte_offset + memory_width_bytes access.width ≤ (regions access.region).size)
    × (access.alignment ≢ 0)
    × (bit_and ((regions access.region).base + byte_offset) (access.alignment - 1) ≡ 0)

-- A context, if there is one, that has left at a site with a value, and is otherwise as it was.
abbrev pub LeftAt : ℕ → ℕ → Option ExecutionContext → Option ExecutionContext → Type 0
LeftAt site value none context' = context' ≡ none
LeftAt site value (some c) context' =
    context'
    ≡ some (record c { exit_reason = ExitReason.runtime; exit_site = site; exit_value = value })

failed-LeftAt :
    (context : Option ExecutionContext) (site byte_offset : ℕ)
    → LeftAt site byte_offset context (failed context site byte_offset)
unfolding record_exit
failed-LeftAt none site byte_offset = refl
failed-LeftAt (some c) site byte_offset = refl

resolve_refusal :
    (access : MemoryAccessDescriptor) (byte_offset site : ℕ)
    (context context' : Option ExecutionContext) (store : Bool) (s : Status)
    → resolve access byte_offset site context store ≡ (context', failure s)
    → (s ≡ status StatusCode.runtime_exit site) × (context' ≡ failed context site byte_offset)
unfolding resolve check_region
resolve_refusal access byte_offset site none context' store s h = ground arith
resolve_refusal access byte_offset site (some c) context' store s h = ground arith

-- An access that fails is one that is not allowed. It reports a runtime exit at its site, and the
-- context, if there is one, has left for that reason, at that site and with the offset as its
-- value; nothing else of it has changed.
pub resolve_fails :
    (access : MemoryAccessDescriptor) (byte_offset site : ℕ)
    (context context' : Option ExecutionContext) (store : Bool) (s : Status)
    → resolve access byte_offset site context store ≡ (context', failure s)
    → (Allowed access byte_offset store context → ⊥)
      × (s.code ≡ StatusCode.runtime_exit)
      × (s.location ≡ site)
      × LeftAt site byte_offset context context'
resolve_fails access byte_offset site context context' store s h =
    let refusal = resolve_refusal access byte_offset site context context' store s h in
    (
      refuses context h,
      ap (λ t. t.code) refusal.0,
      ap (λ t. t.location) refusal.0,
      subst (LeftAt site byte_offset context) (sym refusal.1)
          (failed-LeftAt context site byte_offset),
    )
  where
    refuses :
        (o : Option ExecutionContext)
        → resolve access byte_offset site o store ≡ (context', failure s)
        → Allowed access byte_offset store o
        → ⊥
    refuses none e h = h
    refuses (some c) e (regions, bound, listed, writable, fits, positive, aligned) =
        let done =
          resolve_succeeds access byte_offset site c store regions bound listed writable fits
            positive aligned in
        absurd (ground (arith, ap (λ p. p.1) (sym done ∙ e)))
