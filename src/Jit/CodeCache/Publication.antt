-- ===== src/Jit/CodeCache/Publication.antt =====
-- CodeCache::publish keeps the cache's sizes (src/jit/code_cache.cpp).
use mathlib.Core.Path.{subst}
use uni_jit.Common.{
  ℕ, suc, ◌+◌, ◌≤◌, ◌<◌, ◌≡◌, ◌≢◌, refl, sym, ap, ◌∙◌, Bool, true, false, not, ◌||◌, Option, none,
  some, length, ltb, leb, ◌-◌, map, ◌==◌, Text, is_empty, arith, if_both, if_each,
}
use uni_jit.Runtime.Assumption.{Assumption, Store}
use uni_jit.Status.{is_ok}
use uni_jit.Jit.Target.{validate_target_profile, target_profiles_equal}
use uni_jit.Jit.Handle.{CompiledFunction}
use uni_jit.Jit.CodeCache.{
  Entry, CodeCache, find_entry, erase, make_room, next_stamp, next_code_generation, is_crowded,
  holds, forget_access, maximum_stamp, count_assumption_invalidation,
}
use uni_jit.Jit.CodeCache.Publish.{
  CodeCachePublication, emplace, emplace_at, place, publish_new, publish_existing, publish,
  replace_existing, insert_entry, new_entry, count_reuse, count_publication,
}
use uni_jit.Jit.CodeCache.Entries.{forget-sizes, find_entry-forget_none}
use uni_jit.Jit.CodeCache.Invariant.{
  IsCache, erase-IsCache, next_stamp-IsCache, next_code_generation-IsCache, used-IsCache,
  either-IsCache, found_again,
}
use uni_jit.Jit.CodeCache.Eviction.{make_room-keeps, make_room-ends}
use uni_jit.Jit.CodeCache.Recency.{make_room-limits}

-- What both outcomes of next_stamp have.
pub next_stamp-both :
    (P : CodeCache → Type 0) (c : CodeCache)
    → P (record c { entries = map forget_access c.entries; access_clock = 1 })
    → P (record c { access_clock = c.access_clock + 1 })
    → P (next_stamp c).0
unfolding next_stamp
next_stamp-both P c p q =
    if_both {A = CodeCache × ℕ} (λ r. P r.0) (c.access_clock == maximum_stamp) _ _ p q

room :
    (code_bytes : ℕ) (c : CodeCache)
    → is_crowded code_bytes c ≡ false
    → (length c.entries < c.limits.maximum_entries)
      × (c.statistics.resident_code_bytes ≤ c.limits.maximum_code_bytes - code_bytes)
room code_bytes c roomy = ground (arith, roomy)

pub next_stamp-room :
    (code_bytes : ℕ) (c : CodeCache)
    → is_crowded code_bytes c ≡ false
    → is_crowded code_bytes (next_stamp c).0 ≡ false
next_stamp-room code_bytes c roomy =
    next_stamp-both (λ d. is_crowded code_bytes d ≡ false) c
      (ap
          (λ n.
            leb c.limits.maximum_entries n
            || ltb (c.limits.maximum_code_bytes - code_bytes) c.statistics.resident_code_bytes)
          (forget-sizes c.entries).0
        ∙ roomy)
      roomy

pub next_stamp-absent :
    (key : Text) (c : CodeCache)
    → find_entry key c.entries ≡ none
    → find_entry key (next_stamp c).0.entries ≡ none
next_stamp-absent key c absent =
    next_stamp-both (λ d. find_entry key d.entries ≡ none) c
      (find_entry-forget_none key c.entries absent) absent

pub next_code_generation-both :
    (P : CodeCache → Type 0) (c : CodeCache)
    → P (record c { generation = 1 })
    → P (record c { generation = c.generation + 1 })
    → P (next_code_generation c).0
unfolding next_code_generation
next_code_generation-both P c p q =
    if_both {A = CodeCache × ℕ} (λ r. P r.0) (c.generation == maximum_stamp) _ _ p q

pub make_room-IsCache :
    (rounds code_bytes : ℕ) (c : CodeCache) → IsCache c → IsCache (make_room rounds code_bytes c).0
make_room-IsCache rounds code_bytes c h =
    (make_room-keeps (λ d. Unit) (λ d v p k victim. _) rounds code_bytes c h _).0

pub accepted_limits :
    (valid : Bool) (c : CodeCache) (code_bytes : ℕ)
    → (not valid || c.limits.maximum_entries == 0 || ltb c.limits.maximum_code_bytes code_bytes)
      ≡ false
    → (c.limits.maximum_entries ≢ 0) × (code_bytes ≤ c.limits.maximum_code_bytes)
accepted_limits valid c code_bytes accepted =
    (λ zero_entries. ground (arith, accepted, zero_entries), ground (arith, accepted))

next_stamp-limits : (c : CodeCache) → (next_stamp c).0.limits ≡ c.limits
next_stamp-limits c = next_stamp-both (λ d. d.limits ≡ c.limits) c refl refl

module _ (store : Store Assumption) (entry_allocated : Bool) (key : Text) (fingerprint : ℕ)
    (f : CompiledFunction) where
  abbrev code_bytes : ℕ
  code_bytes = f.executable_mapping_size

  insert_entry-IsCache :
      (e : Entry) (c : CodeCache)
      → e.code_bytes ≡ code_bytes
      → find_entry e.key c.entries ≡ none
      → is_crowded code_bytes c ≡ false
      → code_bytes ≤ c.limits.maximum_code_bytes
      → IsCache c
      → IsCache (insert_entry store entry_allocated key fingerprint f e c)
  insert_entry-IsCache e c size absent roomy fits h =
      let sizes = room code_bytes c roomy in
      (
        refl,
        omega (arith, size, sizes, fits, h.1, h.5),
        (absent, h.2),
        omega (arith, sizes),
        omega (arith, size, sizes, fits, h.1),
        h.5,
      )

  emplace_at-IsCache :
      (g : ℕ) (stamped : CodeCache × ℕ) (o : Option Entry)
      → find_entry key stamped.0.entries ≡ o
      → is_crowded code_bytes stamped.0 ≡ false
      → code_bytes ≤ stamped.0.limits.maximum_code_bytes
      → IsCache stamped.0
      → IsCache (emplace_at store entry_allocated key fingerprint f g stamped o).0
  unfolding emplace_at
  emplace_at-IsCache g (c, stamp) (some present) here roomy fits h = h
  emplace_at-IsCache g (c, stamp) none here roomy fits h =
      insert_entry-IsCache (new_entry store entry_allocated key fingerprint f g stamp) c refl here
        roomy fits h

  place-IsCache :
      (g : ℕ) (c : CodeCache) (done : Bool)
      → (done ≡ true → is_crowded code_bytes c ≡ false)
      → code_bytes ≤ c.limits.maximum_code_bytes
      → IsCache c
      → IsCache (place store entry_allocated key fingerprint f g (c, done)).0
  unfolding emplace
  place-IsCache g c false roomy fits h = h
  place-IsCache g c true roomy fits h =
      either-IsCache entry_allocated _ _
        (emplace_at-IsCache g (next_stamp c) _ refl (next_stamp-room code_bytes c (roomy refl))
          (subst (λ l. code_bytes ≤ l.maximum_code_bytes) (sym (next_stamp-limits c)) fits)
          (next_stamp-IsCache c h))
        (next_stamp-IsCache c h)

  pub replace_existing-IsCache :
      (o : Option Entry) (c : CodeCache)
      → ((e : Entry) → o ≡ some e → find_entry e.key c.entries ≡ some e)
      → IsCache c
      → IsCache (replace_existing store entry_allocated key fingerprint f o c)
        × ((replace_existing store entry_allocated key fingerprint f o c).limits ≡ c.limits)
  unfolding erase
  replace_existing-IsCache none c found h = (h, refl)
  replace_existing-IsCache (some e) c found h = (erase-IsCache e c (found e refl) h, refl)

  room_made-IsCache :
      (g : ℕ) (c : CodeCache)
      → c.limits.maximum_entries ≢ 0
      → code_bytes ≤ c.limits.maximum_code_bytes
      → IsCache c
      → IsCache
          (place store entry_allocated key fingerprint f g
            (make_room (suc (length c.entries)) code_bytes c)).0
  room_made-IsCache g c some_entry fits h =
      let rounds = suc (length c.entries) in
      place-IsCache g (make_room rounds code_bytes c).0 (make_room rounds code_bytes c).1
        (λ done. (make_room-ends rounds code_bytes c h some_entry (omega arith)).1)
        (subst (λ l. code_bytes ≤ l.maximum_code_bytes)
          (sym (make_room-limits rounds code_bytes c h)) fits)
        (make_room-IsCache rounds code_bytes c h)

  publish_new-IsCache :
      (o : Option Entry) (r : CodeCache × ℕ)
      → ((e : Entry) → o ≡ some e → find_entry e.key r.0.entries ≡ some e)
      → IsCache r.0
      → IsCache (publish_new store entry_allocated key fingerprint f o r).0
  unfolding publish_new
  publish_new-IsCache o (c, g) found h =
      if_each {A = CodeCache × CodeCachePublication} (λ r. IsCache r.0)
        (not (holds store f)
          || c.limits.maximum_entries == 0
          || ltb c.limits.maximum_code_bytes code_bytes)
        _ _ (λ refused. h)
        (λ accepted.
          let cleared = replace_existing-IsCache o c found h in
          let limits = accepted_limits (holds store f) c code_bytes accepted in
          room_made-IsCache g (replace_existing store entry_allocated key fingerprint f o c)
            (subst (λ l. l.maximum_entries ≢ 0) (sym cleared.1) limits.0)
            (subst (λ l. code_bytes ≤ l.maximum_code_bytes) (sym cleared.1) limits.1) cleared.0)

  publish_existing-IsCache :
      (o : Option Entry) (c : CodeCache)
      → ((e : Entry) → o ≡ some e → find_entry e.key c.entries ≡ some e)
      → IsCache c
      → IsCache (publish_existing store entry_allocated key fingerprint f o c).0
  unfolding publish_existing next_code_generation
  publish_existing-IsCache none c found h =
      publish_new-IsCache none (next_code_generation c)
        (λ e absent. absurd (ground (arith, absent))) (next_code_generation-IsCache c h)
  publish_existing-IsCache (some e) c found h =
      either-IsCache (e.fingerprint == fingerprint) _ _
        (either-IsCache (holds store e.function) _ _
          (used-IsCache e (next_stamp (count_reuse c)) (next_stamp-IsCache (count_reuse c) h))
          (publish_new-IsCache none
            (next_code_generation (count_assumption_invalidation (erase e c)))
            (λ d absent. absurd (ground (arith, absent)))
            (next_code_generation-IsCache (count_assumption_invalidation (erase e c))
              (erase-IsCache e c (found e refl) h))))
        (publish_new-IsCache (some e) (next_code_generation c)
          (λ d same.
            next_code_generation-both (λ k. find_entry d.key k.entries ≡ some d) c (found d same)
              (found d same))
          (next_code_generation-IsCache c h))

-- CodeCache::publish keeps the counters, the distinct keys and the limits, with memory or without.
pub publish-IsCache :
    (store : Store Assumption) (key_allocated entry_allocated : Bool) (key : Text) (fingerprint : ℕ)
    (f : Option CompiledFunction) (c : CodeCache)
    → IsCache c
    → IsCache (publish store key_allocated entry_allocated key fingerprint f c).0
unfolding publish
publish-IsCache store key_allocated entry_allocated key fingerprint none c h = h
publish-IsCache store key_allocated entry_allocated key fingerprint (some f) c h =
    either-IsCache (is_empty key) _ _ h (
      either-IsCache (not (is_ok (validate_target_profile c.target_profile))) _ _ h (
        either-IsCache (not (target_profiles_equal f.target_profile c.target_profile)) _ _ h (
          either-IsCache key_allocated _ _
            (publish_existing-IsCache store entry_allocated key fingerprint f
              (find_entry key c.entries) (count_publication c) (found_again key c.entries) h)
            h)))
