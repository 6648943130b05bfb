-- ===== src/Jit/CodeCache/History.antt =====
-- The histories of a code cache: any operations, in any order, with memory or without
-- (src/jit/code_cache.cpp).
use uni_jit.Common.{ℕ, ◌^◌, ◌<◌, Bool, Option, Text}
use uni_jit.Runtime.Assumption.{Assumption, Store}
use uni_jit.Jit.Target.{TargetProfile}
use uni_jit.Jit.Handle.{CompiledFunction}
use uni_jit.Jit.CodeCache.{
  CodeCacheLimits, CodeCache, new_code_cache, find, invalidate, invalidate_exact, clear,
}
use uni_jit.Jit.CodeCache.Publish.{publish}
use uni_jit.Jit.CodeCache.Invariant.{
  IsCache, new_code_cache-IsCache, find-IsCache, invalidate-IsCache, invalidate_exact-IsCache,
  clear-IsCache,
}
use uni_jit.Jit.CodeCache.Publication.{publish-IsCache}

-- The assumptions may change between two steps.
pub data Step : CodeCache → CodeCache → Type 0 where
  finds :
      (store : Store Assumption) (allocated : Bool) (key : Text) (fingerprint : ℕ) {c : CodeCache}
      → Step c (find store allocated key fingerprint c).0
  publishes :
      (store : Store Assumption) (key_allocated entry_allocated : Bool) (key : Text)
      (fingerprint : ℕ) (f : Option CompiledFunction) {c : CodeCache}
      → Step c (publish store key_allocated entry_allocated key fingerprint f c).0
  invalidates :
      (allocated : Bool) (key : Text) {c : CodeCache} → Step c (invalidate allocated key c).0
  invalidates_exact :
      (allocated : Bool) (key : Text) (fingerprint : ℕ) {c : CodeCache}
      → Step c (invalidate_exact allocated key fingerprint c).0
  clears : {c : CodeCache} → Step c (clear c)

pub data Reachable (limits : CodeCacheLimits) (profile : TargetProfile) : CodeCache → Type 0 where
  start : Reachable limits profile (new_code_cache limits profile)
  then : {c d : CodeCache} → Reachable limits profile c → Step c d → Reachable limits profile d

Step-IsCache : {c d : CodeCache} → Step c d → IsCache c → IsCache d
Step-IsCache {c} (Step.finds store allocated key fingerprint) h =
    find-IsCache store allocated key fingerprint c h
Step-IsCache {c} (Step.publishes store key_allocated entry_allocated key fingerprint f) h =
    publish-IsCache store key_allocated entry_allocated key fingerprint f c h
Step-IsCache {c} (Step.invalidates allocated key) h = invalidate-IsCache allocated key c h
Step-IsCache {c} (Step.invalidates_exact allocated key fingerprint) h =
    invalidate_exact-IsCache allocated key fingerprint c h
Step-IsCache {c} Step.clears h = clear-IsCache c h

-- Whatever operations ran, in whatever order and whichever of them found no memory, and however the
-- assumptions changed between them: the counters of resident entries and code bytes are those of the
-- entries, no key is there twice, and the limits on both are kept. The limit on bytes is a 64-bit
-- number.
pub Reachable-IsCache :
    {limits : CodeCacheLimits} {profile : TargetProfile} {c : CodeCache}
    → limits.maximum_code_bytes < 2 ^ 64
    → Reachable limits profile c
    → IsCache c
Reachable-IsCache {limits} {profile} h Reachable.start = new_code_cache-IsCache limits profile h
Reachable-IsCache h (Reachable.then before step) = Step-IsCache step (Reachable-IsCache h before)
