-- ===== src/Tests/Caches.antt =====
-- Code caches and targets (src/jit/code_cache.cpp, src/jit/target.cpp): a cache of one entry.
use uni_jit.Common.{◌⊎◌, ◌≡◌, refl, true, false, some, [], ◌∷◌, arith}
use uni_jit.Ir.Opcode.{ValueType}
use uni_jit.Runtime.Assumption.{Assumption, Store, first_invalid}
use uni_jit.Jit.Target.{
  TargetArchitecture, TargetAbi, TargetEndianness, VectorWidthPolicy, TargetProfile,
  target_profiles_equal, validate_target_profile, abi_matches_architecture,
}
use uni_jit.Jit.Handle.{CompiledFunction, invalid_handle, assumptions_valid}
use uni_jit.Jit.CodeCache.{
  CodeCacheLimits, CodeCache, Entry, new_code_cache, find, make_room, is_crowded, next_stamp,
  next_code_generation, evict_one, evict_from, erase,
}
use uni_jit.Jit.CodeCache.Publish.{
  CodeCachePublication, publish, publish_existing, publish_new, emplace, emplace_at,
}
use uni_jit.Jit.CodeCache.Invariant.{IsCache}
use uni_jit.Jit.CodeCache.Eviction.{make_room-ends}
use uni_jit.Jit.CodeCache.Recency.{StaysOrOldest, make_room-lru}
use uni_jit.Jit.CodeCache.View.{view, Forgets}
use uni_jit.Jit.CodeCache.Refinement.{publish_refines}
use uni_jit.Jit.CodeCache.Lookup.{find_refines, find-publish}
use uni_jit.Jit.CodeCache.History.{Step, Reachable, Reachable-IsCache}
use uni_jit.Jit.CodeCache.Acceptance.{publish-caches}

abbrev linux_x86 : TargetProfile
linux_x86 = record {
  architecture = TargetArchitecture.x86_64;
  abi = TargetAbi.system_v;
  endianness = TargetEndianness.little;
  features = 5;
  vector_width_policy = VectorWidthPolicy.portable128;
  maximum_vector_bits = 128;
}

abbrev code : CompiledFunction
code = record {
  parameter_types = ValueType.word ∷ [];
  return_type = ValueType.word;
  assumptions = [];
  deoptimization_table = [];
  target_profile = linux_x86;
  executable_mapping_size = 64;
  entry = 4096;
}

abbrev all_valid : Store Assumption
all_valid t = record { valid = true; active_contexts = [] }

abbrev one_entry : CodeCacheLimits
one_entry = record { maximum_entries = 1; maximum_code_bytes = 100 }

abbrev fresh : CodeCache
fresh = new_code_cache one_entry linux_x86

-- The code is published under the key 7.
abbrev full : CodeCache
full = (publish all_valid true true (7 ∷ []) 3 (some code) fresh).0

abbrev full_reachable : Reachable one_entry linux_x86 full
full_reachable =
    Reachable.then Reachable.start (Step.publishes all_valid true true (7 ∷ []) 3 (some code))

reachable_cache_example : IsCache full
reachable_cache_example = Reachable-IsCache (omega arith) full_reachable

abbrev full_is_cache : IsCache full
full_is_cache = Reachable-IsCache (omega arith) full_reachable

-- Room for 64 more bytes needs an eviction.
make_room_example :
    ((make_room 2 64 full).1 ≡ true) × (is_crowded 64 (make_room 2 64 full).0 ≡ false)
unfolding publish publish_existing publish_new make_room emplace emplace_at next_stamp
    next_code_generation new_code_cache validate_target_profile target_profiles_equal
    abi_matches_architecture first_invalid
make_room_example = make_room-ends 2 64 full full_is_cache (λ e. omega (arith, e)) (omega arith)

abbrev first_entry : Entry
first_entry = record {
  key = 7 ∷ [];
  fingerprint = 3;
  generation = 1;
  last_access = 1;
  code_bytes = 64;
  function = code;
}

make_room_lru_example : StaysOrOldest (7 ∷ []) first_entry (make_room 2 64 full).0.entries
unfolding publish publish_existing publish_new make_room emplace emplace_at next_stamp
    next_code_generation new_code_cache validate_target_profile target_profiles_equal
    abi_matches_architecture first_invalid
make_room_lru_example = make_room-lru 2 64 full (7 ∷ []) first_entry full_is_cache refl

publish_refines_example :
    (let r = publish all_valid true true (8 ∷ []) 4 (some code) full in
      Forgets (7 ∷ []) full r.0
      × ((r.1.cached ≡ false)
          ⊎ ((view r.0 (8 ∷ []) ≡ some (4, r.1.handle))
              × (assumptions_valid all_valid r.1.handle ≡ true))))
publish_refines_example =
    publish_refines all_valid true true (8 ∷ []) (7 ∷ []) 4 (some code) full full_is_cache refl

find_refines_example :
    (let r = find all_valid true (7 ∷ []) 3 full in
      (view r.0 (8 ∷ []) ≡ view full (8 ∷ []))
      × (((r.1 ≡ invalid_handle) × Forgets (7 ∷ []) full r.0)
          ⊎ ((view full (7 ∷ []) ≡ some (3, r.1))
              × (assumptions_valid all_valid r.1 ≡ true)
              × (view r.0 (7 ∷ []) ≡ view full (7 ∷ [])))))
find_refines_example = find_refines all_valid true (7 ∷ []) (8 ∷ []) 3 full full_is_cache refl

abbrev second : CodeCache × CodeCachePublication
second = publish all_valid true true (8 ∷ []) 4 (some code) full

find_publish_example : (find all_valid true (8 ∷ []) 4 second.0).1 ≡ second.1.handle
unfolding publish publish_existing publish_new make_room emplace emplace_at next_stamp
    next_code_generation new_code_cache validate_target_profile target_profiles_equal
    abi_matches_architecture first_invalid evict_one evict_from erase
find_publish_example =
    find-publish all_valid true true (8 ∷ []) 4 (some code) full full_is_cache refl

publish_caches_example : second.1.cached ≡ true
unfolding publish publish_existing publish_new make_room emplace emplace_at next_stamp
    next_code_generation new_code_cache validate_target_profile target_profiles_equal
    abi_matches_architecture first_invalid evict_one evict_from erase
publish_caches_example =
    publish-caches all_valid (8 ∷ []) 4 code full full_is_cache refl refl refl refl
      (λ e. omega (arith, e)) (omega arith)
