-- ===== src/Jit/CodeCache/Invariant.antt =====
-- The sizes of a code cache (src/jit/code_cache.cpp): the counters of what is resident, and the limits.
use mathlib.Core.Path.{subst}
use uni_jit.Common.{
  shrink_lem, ℕ, ◌+◌, ◌^◌, ◌≤◌, ◌<◌, ◌≡◌, refl, sym, Bool, true, not, false, Option, none, some,
  List, map, length, arith, Bool-cases, ◌==◌, inl, inr, if◌then◌else◌, Text,
}
use uni_jit.Runtime.Assumption.{Assumption, Store}
use uni_jit.Jit.Target.{TargetProfile}
use uni_jit.Jit.CodeCache.{
  CodeCacheLimits, Entry, forget_access, count_hit, count_lookup, CodeCache, new_code_cache,
  next_stamp, next_code_generation, find_entry, erase_key, erase, used, find, find_in, holds,
  invalidate, invalidate_entry, invalidate_exact, with_fingerprint, clear, maximum_stamp,
}
use uni_jit.Jit.CodeCache.Entries.{
  KeysApart, total_bytes, erase_key-sizes, erase_key-KeysApart, touch-sizes, touch-KeysApart,
  forget-sizes, forget-KeysApart, find_entry-key,
}

-- The counters are the entries', no key is twice there, and the limits are kept.
abbrev pub IsCache : CodeCache → Type 0
IsCache c =
    (c.statistics.resident_entries ≡ length c.entries)
    × (c.statistics.resident_code_bytes ≡ total_bytes c.entries)
    × KeysApart c.entries
    × (length c.entries ≤ c.limits.maximum_entries)
    × (total_bytes c.entries ≤ c.limits.maximum_code_bytes)
    × (c.limits.maximum_code_bytes < 2 ^ 64)

-- A result whose cache is either of two.
pub either-IsCache {ℓ} :
    {A : Type ℓ} (test : Bool) (x y : CodeCache × A)
    → IsCache x.0
    → IsCache y.0
    → IsCache (if test then x else y).0
either-IsCache true x y p q = p
either-IsCache false x y p q = q

pub erase-IsCache :
    (e : Entry) (c : CodeCache)
    → find_entry e.key c.entries ≡ some e
    → IsCache c
    → IsCache (erase e c)
unfolding erase
erase-IsCache e c found h =
    let sizes = erase_key-sizes e.key c.entries e found in
    (
      refl,
      shrink_lem c.statistics.resident_code_bytes e.code_bytes
          (total_bytes (erase_key e.key c.entries)) (omega (arith, h, sizes))
          (omega (arith, h, sizes)),
      erase_key-KeysApart e.key c.entries h.2,
      omega (arith, h, sizes),
      omega (arith, h, sizes),
      h.5,
    )

pub next_stamp-IsCache : (c : CodeCache) → IsCache c → IsCache (next_stamp c).0
unfolding next_stamp
next_stamp-IsCache c h =
    either-IsCache (c.access_clock == maximum_stamp)
      (record c { entries = map forget_access c.entries; access_clock = 1 }, 1)
      (record c { access_clock = c.access_clock + 1 }, c.access_clock + 1)
      (
        omega (arith, h.0, forget-sizes c.entries),
        omega (arith, h.1, forget-sizes c.entries),
        forget-KeysApart c.entries h.2,
        omega (arith, h.3, forget-sizes c.entries),
        omega (arith, h.4, forget-sizes c.entries),
        h.5,
      )
      h

pub next_code_generation-IsCache : (c : CodeCache) → IsCache c → IsCache (next_code_generation c).0
unfolding next_code_generation
next_code_generation-IsCache c h =
    either-IsCache (c.generation == maximum_stamp) (record c { generation = 1 }, 1)
      (record c { generation = c.generation + 1 }, c.generation + 1) h h

pub used-IsCache : (e : Entry) (r : CodeCache × ℕ) → IsCache r.0 → IsCache (used e r)
used-IsCache e (c, stamp) h =
    let sizes = touch-sizes e.key stamp c.entries in
    (
      omega (arith, h.0, sizes),
      omega (arith, h.1, sizes),
      touch-KeysApart e.key stamp c.entries h.2,
      omega (arith, h.3, sizes),
      omega (arith, h.4, sizes),
      h.5,
    )

-- What find_entry finds is found by its own key.
pub found_again :
    (key : Text) (es : List Entry) (e : Entry)
    → find_entry key es ≡ some e
    → find_entry e.key es ≡ some e
found_again key es e found =
    subst (λ k. find_entry k es ≡ some e) (sym (find_entry-key key es e found)) found

find_in-IsCache :
    (store : Store Assumption) (fingerprint : ℕ) (c : CodeCache) (o : Option Entry)
    → ((e : Entry) → o ≡ some e → find_entry e.key c.entries ≡ some e)
    → IsCache c
    → IsCache (find_in store fingerprint c o).0
unfolding find_in
find_in-IsCache store fingerprint c none found h = h
find_in-IsCache store fingerprint c (some e) found h =
    either-IsCache (not (e.fingerprint == fingerprint)) _ _ h (
      either-IsCache (not (holds store e.function)) _ _ (erase-IsCache e c (found e refl) h)
        (used-IsCache e (next_stamp (count_hit c)) (next_stamp-IsCache (count_hit c) h)))

pub find-IsCache :
    (store : Store Assumption) (allocated : Bool) (key : Text) (fingerprint : ℕ) (c : CodeCache)
    → IsCache c
    → IsCache (find store allocated key fingerprint c).0
unfolding find
find-IsCache store allocated key fingerprint c h =
    either-IsCache allocated _ _
      (find_in-IsCache store fingerprint (count_lookup c) (find_entry key c.entries)
        (found_again key c.entries) h)
      h

pub invalidate_entry-IsCache :
    (c : CodeCache) (o : Option Entry)
    → ((e : Entry) → o ≡ some e → find_entry e.key c.entries ≡ some e)
    → IsCache c
    → IsCache (invalidate_entry c o).0
unfolding invalidate_entry
invalidate_entry-IsCache c none found h = h
invalidate_entry-IsCache c (some e) found h = erase-IsCache e c (found e refl) h

pub invalidate-IsCache :
    (allocated : Bool) (key : Text) (c : CodeCache)
    → IsCache c
    → IsCache (invalidate allocated key c).0
unfolding invalidate
invalidate-IsCache allocated key c h =
    either-IsCache allocated _ _
      (invalidate_entry-IsCache c (find_entry key c.entries) (found_again key c.entries) h) h

exact_found :
    (fingerprint : ℕ) (o : Option Entry) (e : Entry)
    → with_fingerprint fingerprint o ≡ some e
    → o ≡ some e
exact_found fingerprint none e h = absurd (ground (arith, h))
exact_found fingerprint (some d) e h = elim (Bool-cases (d.fingerprint == fingerprint)) [
  | inl same ↦ ground (arith, h, same)
  | inr other ↦ absurd (ground (arith, h, other))
]

pub invalidate_exact-IsCache :
    (allocated : Bool) (key : Text) (fingerprint : ℕ) (c : CodeCache)
    → IsCache c
    → IsCache (invalidate_exact allocated key fingerprint c).0
unfolding invalidate_exact
invalidate_exact-IsCache allocated key fingerprint c h =
    either-IsCache allocated _ _
      (invalidate_entry-IsCache c (with_fingerprint fingerprint (find_entry key c.entries))
        (λ e found.
          found_again key c.entries e (exact_found fingerprint (find_entry key c.entries) e found))
        h)
      h

pub clear-IsCache : (c : CodeCache) → IsCache c → IsCache (clear c)
unfolding clear
clear-IsCache c h = (refl, refl, _, omega arith, omega arith, h.5)

pub new_code_cache-IsCache :
    (limits : CodeCacheLimits) (profile : TargetProfile)
    → limits.maximum_code_bytes < 2 ^ 64
    → IsCache (new_code_cache limits profile)
unfolding new_code_cache
new_code_cache-IsCache limits profile h = (refl, refl, _, omega arith, omega arith, h)
