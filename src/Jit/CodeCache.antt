-- ===== src/Jit/CodeCache.antt =====
-- CodeCache of include/unijit/jit/code_cache.h and src/jit/code_cache.cpp. A mutex makes each operation
-- one step. The hash table is a list of entries, in the order that its iteration has; where two
-- entries are equally old, that order chooses which one is evicted. `allocated` says whether memory
-- is found. A cache that was moved from is not modelled.
pub mod Publish
pub mod Entries
pub mod Invariant
pub mod Eviction
pub mod Recency
pub mod Publication
pub mod View
pub mod Refinement
pub mod Lookup
pub mod History
pub mod Acceptance
use uni_jit.Common.{
  shrink, ℕ, zero, suc, ◌+◌, ◌-◌, ◌%◌, ◌^◌, Bool, true, false, not, ◌&&◌, ◌||◌, Option, none, some,
  List, [], ◌∷◌, map, length, find_if, ltb, leb, if◌then◌else◌, ◌==◌, Text, same_text, is_empty,
}
use uni_jit.Status.{StatusCode, Status, status, ok_status, is_ok}
use uni_jit.Runtime.Assumption.{Assumption, Store, first_invalid}
use uni_jit.Jit.Target.{TargetProfile, validate_target_profile, target_profiles_equal}
use uni_jit.Jit.Handle.{CompiledFunction, CodeHandle, invalid_handle, is_missing}

pub record CodeCacheLimits : Type 0 where
  pub maximum_entries : ℕ
  pub maximum_code_bytes : ℕ

pub record CodeCacheStats : Type 0 where
  pub lookups : ℕ
  pub hits : ℕ
  pub misses : ℕ
  pub publications : ℕ
  pub publication_reuses : ℕ
  pub uncached_publications : ℕ
  pub replacements : ℕ
  pub invalidations : ℕ
  pub assumption_invalidations : ℕ
  pub evictions : ℕ
  pub clears : ℕ
  pub resident_entries : ℕ
  pub resident_code_bytes : ℕ

pub record Entry : Type 0 where
  pub key : Text
  pub fingerprint : ℕ
  pub generation : ℕ
  pub last_access : ℕ
  pub code_bytes : ℕ
  pub function : CompiledFunction

pub record CodeCache : Type 0 where
  pub limits : CodeCacheLimits
  pub target_profile : TargetProfile
  pub entries : List Entry
  pub statistics : CodeCacheStats
  pub access_clock : ℕ
  pub generation : ℕ

abbrev pub no_stats : CodeCacheStats
no_stats = record {
  lookups = 0;
  hits = 0;
  misses = 0;
  publications = 0;
  publication_reuses = 0;
  uncached_publications = 0;
  replacements = 0;
  invalidations = 0;
  assumption_invalidations = 0;
  evictions = 0;
  clears = 0;
  resident_entries = 0;
  resident_code_bytes = 0;
}

unfoldable pub new_code_cache : CodeCacheLimits → TargetProfile → CodeCache
new_code_cache limits target_profile = record {
  limits = limits;
  target_profile = target_profile;
  entries = [];
  statistics = no_stats;
  access_clock = 0;
  generation = 0;
}

abbrev pub maximum_stamp : ℕ
maximum_stamp = 2 ^ 64 - 1

-- `++` on a 64-bit counter.
abbrev pub increment : ℕ → ℕ
increment n = (n + 1) % 2 ^ 64

abbrev pub forget_access : Entry → Entry
forget_access e = record e { last_access = 0 }

unfoldable pub next_stamp : CodeCache → CodeCache × ℕ
next_stamp c =
    if c.access_clock == maximum_stamp
    then (record c { entries = map forget_access c.entries; access_clock = 1 }, 1)
    else (record c { access_clock = c.access_clock + 1 }, c.access_clock + 1)

unfoldable pub next_code_generation : CodeCache → CodeCache × ℕ
next_code_generation c =
    if c.generation == maximum_stamp
    then (record c { generation = 1 }, 1)
    else (record c { generation = c.generation + 1 }, c.generation + 1)

abbrev pub find_entry : Text → List Entry → Option Entry
find_entry key entries = find_if (λ e. same_text e.key key) entries

abbrev pub erase_key : Text → List Entry → List Entry
erase_key key [] = []
erase_key key (e ∷ es) = if same_text e.key key then es else e ∷ erase_key key es

-- The entry of a key is used now.
abbrev pub touch : Text → ℕ → List Entry → List Entry
touch key stamp [] = []
touch key stamp (e ∷ es) =
    if same_text e.key key then record e { last_access = stamp } ∷ es else e ∷ touch key stamp es

-- Erases the entry `e`.
unfoldable pub erase : Entry → CodeCache → CodeCache
erase e c =
    let left = erase_key e.key c.entries in
    record c {
      entries = left;
      statistics = record c.statistics {
        resident_code_bytes = shrink c.statistics.resident_code_bytes e.code_bytes;
        resident_entries = length left;
      };
    }

-- std::min_element, with the least so far.
abbrev pub oldest : Entry → List Entry → Entry
oldest best [] = best
oldest best (e ∷ es) = oldest (if ltb e.last_access best.last_access then e else best) es

abbrev pub count_eviction : CodeCache → CodeCache
count_eviction c = record c {
  statistics = record c.statistics { evictions = increment c.statistics.evictions };
}

unfoldable pub evict_from : List Entry → CodeCache → CodeCache × Bool
evict_from [] c = (c, false)
evict_from (e ∷ es) c = (count_eviction (erase (oldest e es) c), true)

unfoldable pub evict_one : CodeCache → CodeCache × Bool
evict_one c = evict_from c.entries c

abbrev pub is_crowded : ℕ → CodeCache → Bool
is_crowded code_bytes c =
    leb c.limits.maximum_entries (length c.entries)
    || ltb (c.limits.maximum_code_bytes - code_bytes) c.statistics.resident_code_bytes

-- The eviction loop; whether there is room at its end. Each round but the last evicts, so one more
-- round than there are entries is enough.
unfoldable pub make_room : ℕ → ℕ → CodeCache → CodeCache × Bool
make_room zero code_bytes c = (c, false)
make_room (suc rounds) code_bytes c =
    let evicted = evict_one c in
    let rest = make_room rounds code_bytes evicted.0 in
    if is_crowded code_bytes c then if evicted.1 then rest else (c, false) else (c, true)

abbrev pub count_lookup : CodeCache → CodeCache
count_lookup c = record c {
  statistics = record c.statistics { lookups = increment c.statistics.lookups };
}

abbrev pub count_miss : CodeCache → CodeCache
count_miss c = record c {
  statistics = record c.statistics { misses = increment c.statistics.misses };
}

abbrev pub count_hit : CodeCache → CodeCache
count_hit c = record c { statistics = record c.statistics { hits = increment c.statistics.hits } }

abbrev pub count_assumption_invalidation : CodeCache → CodeCache
count_assumption_invalidation c = record c {
  statistics = record c.statistics {
    assumption_invalidations = increment c.statistics.assumption_invalidations;
  };
}

abbrev pub count_invalidation : CodeCache → CodeCache
count_invalidation c = record c {
  statistics = record c.statistics { invalidations = increment c.statistics.invalidations };
}

abbrev pub handle_of : Entry → CodeHandle
handle_of e = record { function = some e.function; generation = e.generation }

-- The entry of `e`'s key is stamped with the time of its use.
abbrev pub used : Entry → CodeCache × ℕ → CodeCache
used e (c, stamp) = record c { entries = touch e.key stamp c.entries }

abbrev pub holds : Store Assumption → CompiledFunction → Bool
holds store f = is_missing (first_invalid store f.assumptions)

-- find, once the lookup is counted and the key is copied.
unfoldable pub find_in : Store Assumption → ℕ → CodeCache → Option Entry → CodeCache × CodeHandle
find_in store fingerprint c none = (count_miss c, invalid_handle)
find_in store fingerprint c (some e) =
    if not (e.fingerprint == fingerprint)
    then (count_miss c, invalid_handle)
    else if not (holds store e.function)
    then (count_assumption_invalidation (count_miss (erase e c)), invalid_handle)
    else (used e (next_stamp (count_hit c)), handle_of e)

unfoldable pub find : Store Assumption → Bool → Text → ℕ → CodeCache → CodeCache × CodeHandle
find store allocated key fingerprint c =
    let counted = count_lookup c in
    if allocated
    then find_in store fingerprint counted (find_entry key counted.entries)
    else (counted, invalid_handle)

unfoldable pub invalidate_entry : CodeCache → Option Entry → CodeCache × Bool
invalidate_entry c none = (c, false)
invalidate_entry c (some e) = (count_invalidation (erase e c), true)

unfoldable pub invalidate : Bool → Text → CodeCache → CodeCache × Bool
invalidate allocated key c =
    if allocated then invalidate_entry c (find_entry key c.entries) else (c, false)

abbrev pub with_fingerprint : ℕ → Option Entry → Option Entry
with_fingerprint fingerprint none = none
with_fingerprint fingerprint (some e) = if e.fingerprint == fingerprint then some e else none

unfoldable pub invalidate_exact : Bool → Text → ℕ → CodeCache → CodeCache × Bool
invalidate_exact allocated key fingerprint c =
    if allocated
    then invalidate_entry c (with_fingerprint fingerprint (find_entry key c.entries))
    else (c, false)

unfoldable pub clear : CodeCache → CodeCache
clear c = record c {
  entries = [];
  statistics = record c.statistics {
    resident_entries = 0;
    resident_code_bytes = 0;
    clears = increment c.statistics.clears;
  };
}
