-- ===== src/Jit/CodeCache/Publish.antt =====
-- CodeCache::publish (src/jit/code_cache.cpp). Memory may be short twice: for the key and the shared
-- function before the lock, and for the entry at the end.
use uni_jit.Common.{
  grow, ℕ, suc, Bool, true, false, not, ◌||◌, Option, none, some, ◌∷◌, length, ltb, if◌then◌else◌,
  ◌==◌, Text, is_empty,
}
use uni_jit.Status.{StatusCode, Status, status, ok_status, is_ok}
use uni_jit.Runtime.Assumption.{Assumption, Store}
use uni_jit.Jit.Target.{validate_target_profile, target_profiles_equal}
use uni_jit.Jit.Handle.{CompiledFunction, CodeHandle, invalid_handle}
use uni_jit.Jit.CodeCache.{
  Entry, CodeCache, increment, next_stamp, next_code_generation, find_entry, erase, make_room,
  count_assumption_invalidation, handle_of, used, holds,
}

pub record CodeCachePublication : Type 0 where
  pub status : Status
  pub handle : CodeHandle
  pub cached : Bool
  pub reused : Bool

abbrev pub refused : StatusCode → CodeCachePublication
refused code = record {
  status = status code 0;
  handle = invalid_handle;
  cached = false;
  reused = false;
}

abbrev pub published : CodeHandle → Bool → Bool → CodeCachePublication
published handle cached reused = record {
  status = ok_status;
  handle = handle;
  cached = cached;
  reused = reused;
}

abbrev pub count_publication : CodeCache → CodeCache
count_publication c = record c {
  statistics = record c.statistics { publications = increment c.statistics.publications };
}

abbrev pub count_reuse : CodeCache → CodeCache
count_reuse c = record c {
  statistics = record c.statistics {
    publication_reuses = increment c.statistics.publication_reuses;
  };
}

abbrev pub count_uncached : CodeCache → CodeCache
count_uncached c = record c {
  statistics = record c.statistics {
    uncached_publications = increment c.statistics.uncached_publications;
  };
}

abbrev pub count_replacement : CodeCache → CodeCache
count_replacement c = record c {
  statistics = record c.statistics { replacements = increment c.statistics.replacements };
}

module _ (store : Store Assumption) (entry_allocated : Bool) (key : Text) (fingerprint : ℕ)
    (f : CompiledFunction) where
  abbrev pub code_bytes : ℕ
  code_bytes = f.executable_mapping_size

  abbrev pub new_entry : ℕ → ℕ → Entry
  new_entry code_generation stamp = record {
    key = key;
    fingerprint = fingerprint;
    generation = code_generation;
    last_access = stamp;
    code_bytes = code_bytes;
    function = f;
  }

  abbrev pub uncached : ℕ → CodeHandle
  uncached code_generation = record { function = some f; generation = code_generation }

  abbrev pub insert_entry : Entry → CodeCache → CodeCache
  insert_entry e c = record c {
    entries = e ∷ c.entries;
    statistics = record c.statistics {
      resident_entries = suc (length c.entries);
      resident_code_bytes = grow c.statistics.resident_code_bytes code_bytes;
    };
  }

  -- The emplacement, which leaves an entry of the same key, and what follows it.
  unfoldable pub emplace_at : ℕ → CodeCache × ℕ → Option Entry → CodeCache × CodeCachePublication
  emplace_at code_generation (c, stamp) (some present) =
      (count_uncached c, published (uncached code_generation) false false)
  emplace_at code_generation (c, stamp) none = (
    insert_entry (new_entry code_generation stamp) c,
    published (handle_of (new_entry code_generation stamp)) true false,
  )

  unfoldable pub emplace : ℕ → CodeCache × ℕ → CodeCache × CodeCachePublication
  emplace code_generation stamped =
      if entry_allocated
      then emplace_at code_generation stamped (find_entry key stamped.0.entries)
      else (stamped.0, refused StatusCode.resource_exhausted)

  -- After the eviction loop.
  abbrev pub place : ℕ → CodeCache × Bool → CodeCache × CodeCachePublication
  place code_generation (c, true) = emplace code_generation (next_stamp c)
  place code_generation (c, false) =
      (count_uncached c, published (uncached code_generation) false false)

  -- An entry of the same key with another fingerprint makes way.
  abbrev pub replace_existing : Option Entry → CodeCache → CodeCache
  replace_existing none c = c
  replace_existing (some e) c = count_replacement (erase e c)

  unfoldable pub publish_new : Option Entry → CodeCache × ℕ → CodeCache × CodeCachePublication
  publish_new existing (c, code_generation) =
      if not (holds store f)
        || c.limits.maximum_entries == 0
        || ltb c.limits.maximum_code_bytes code_bytes
      then (count_uncached c, published (uncached code_generation) false false)
      else let cleared = replace_existing existing c in
        place code_generation (make_room (suc (length cleared.entries)) code_bytes cleared)

  unfoldable pub publish_existing : Option Entry → CodeCache → CodeCache × CodeCachePublication
  publish_existing none c = publish_new none (next_code_generation c)
  publish_existing (some e) c =
      if e.fingerprint == fingerprint
      then if holds store e.function
        then (used e (next_stamp (count_reuse c)), published (handle_of e) true true)
        else publish_new none (next_code_generation (count_assumption_invalidation (erase e c)))
      else publish_new (some e) (next_code_generation c)

  abbrev pub publish_locked : CodeCache → CodeCache × CodeCachePublication
  publish_locked c = publish_existing (find_entry key c.entries) c

-- `none` is a null function.
unfoldable pub publish :
    Store Assumption
    → Bool
    → Bool
    → Text
    → ℕ
    → Option CompiledFunction
    → CodeCache
    → CodeCache × CodeCachePublication
publish store key_allocated entry_allocated key fingerprint none c =
    (c, refused StatusCode.invalid_argument)
publish store key_allocated entry_allocated key fingerprint (some f) c =
    if is_empty key
    then (c, refused StatusCode.invalid_argument)
    else if not (is_ok (validate_target_profile c.target_profile))
    then (c, refused StatusCode.invalid_argument)
    else if not (target_profiles_equal f.target_profile c.target_profile)
    then (c, refused StatusCode.invalid_argument)
    else if key_allocated
    then publish_locked store entry_allocated key fingerprint f (count_publication c)
    else (c, refused StatusCode.resource_exhausted)
