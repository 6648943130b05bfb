-- ===== src/Jit/CodeCache/Acceptance.antt =====
-- When CodeCache::publish caches the code (src/jit/code_cache.cpp).
use mathlib.Core.Path.{subst}
use uni_jit.Common.{
  ℕ, suc, ◌≡◌, ◌≢◌, ◌≤◌, refl, sym, ap, ◌∙◌, Bool, true, false, not, ◌||◌, Option, none, some,
  length, ltb, ◌==◌, Text, is_empty, arith, if_each, if_both, if_false,
}
use uni_jit.Status.{is_ok}
use uni_jit.Runtime.Assumption.{Assumption, Store}
use uni_jit.Jit.Target.{validate_target_profile, target_profiles_equal}
use uni_jit.Jit.Handle.{CompiledFunction}
use uni_jit.Jit.CodeCache.{
  Entry, CodeCache, find_entry, erase, make_room, next_stamp, next_code_generation, holds,
  count_assumption_invalidation,
}
use uni_jit.Jit.CodeCache.Publish.{
  CodeCachePublication, emplace, emplace_at, place, publish_new, publish_existing, publish,
  replace_existing, count_publication,
}
use uni_jit.Jit.CodeCache.Entries.{find_entry-key, find_entry-erase_key}
use uni_jit.Jit.CodeCache.Invariant.{
  IsCache, erase-IsCache, found_again, next_code_generation-IsCache,
}
use uni_jit.Jit.CodeCache.Eviction.{make_room-ends}
use uni_jit.Jit.CodeCache.Recency.{make_room-absent, some_injective}
use uni_jit.Jit.CodeCache.Publication.{
  next_stamp-absent, next_code_generation-both, replace_existing-IsCache,
}

module _ (store : Store Assumption) (key : Text) (fingerprint : ℕ) (f : CompiledFunction) where
  -- The code is valid and within the limits.
  abbrev Fits : CodeCache → Type 0
  Fits c =
      (c.limits.maximum_entries ≢ 0) × (f.executable_mapping_size ≤ c.limits.maximum_code_bytes)

  place-caches :
      (g : ℕ) (c : CodeCache) (done : Bool)
      → done ≡ true
      → find_entry key c.entries ≡ none
      → (place store true key fingerprint f g (c, done)).1.cached ≡ true
  unfolding emplace emplace_at
  place-caches g c false ends absent = absurd (ground (arith, ends))
  place-caches g c true ends absent =
      ap (λ o. (emplace_at store true key fingerprint f g (next_stamp c) o).1.cached)
        (next_stamp-absent key c absent)

  room_made-caches :
      (g : ℕ) (c : CodeCache)
      → IsCache c
      → Fits c
      → find_entry key c.entries ≡ none
      → (place store true key fingerprint f g
          (make_room (suc (length c.entries)) f.executable_mapping_size c)).1.cached
        ≡ true
  room_made-caches g c h fits absent =
      let rounds = suc (length c.entries) in
      let made = make_room rounds f.executable_mapping_size c in
      place-caches g made.0 made.1
        (make_room-ends rounds f.executable_mapping_size c h fits.0 (omega arith)).0
        (make_room-absent rounds f.executable_mapping_size c key h absent)

  publish_new-caches :
      (o : Option Entry) (r : CodeCache × ℕ)
      → ((e : Entry) → o ≡ some e → find_entry e.key r.0.entries ≡ some e)
      → find_entry key (replace_existing store true key fingerprint f o r.0).entries ≡ none
      → IsCache r.0
      → holds store f ≡ true
      → Fits r.0
      → (publish_new store true key fingerprint f o r).1.cached ≡ true
  unfolding publish_new
  publish_new-caches o (c, g) found absent h valid fits =
      let cleared = replace_existing-IsCache store true key fingerprint f o c found h in
      if_each {A = CodeCache × CodeCachePublication} (λ r. r.1.cached ≡ true)
        (not (holds store f)
          || c.limits.maximum_entries == 0
          || ltb c.limits.maximum_code_bytes f.executable_mapping_size)
        _ _ (λ rejected. absurd (ground (arith, rejected, valid, fits)))
        (λ accepted.
          room_made-caches g (replace_existing store true key fingerprint f o c) cleared.0
            (subst
              (λ l. (l.maximum_entries ≢ 0) × (f.executable_mapping_size ≤ l.maximum_code_bytes))
              (sym cleared.1) fits)
            absent)

  erased_absent :
      (e : Entry) (c : CodeCache)
      → IsCache c
      → e.key ≡ key
      → find_entry key (erase e c).entries ≡ none
  unfolding erase
  erased_absent e c h has_key =
      subst (λ k. find_entry k (erase e c).entries ≡ none) has_key
        (find_entry-erase_key e.key c.entries h.2)

  -- A new publication over the cache `d`, with the entry that it replaces.
  renewed-caches :
      (o : Option Entry) (d : CodeCache)
      → ((e : Entry) → o ≡ some e → find_entry e.key d.entries ≡ some e)
      → ((c : CodeCache)
          → IsCache c
          → c.entries ≡ d.entries
          → find_entry key (replace_existing store true key fingerprint f o c).entries ≡ none)
      → IsCache d
      → holds store f ≡ true
      → Fits d
      → (publish_new store true key fingerprint f o (next_code_generation d)).1.cached ≡ true
  renewed-caches o d found absent h valid fits =
      let counted = next_code_generation d in
      let entries = next_code_generation-both (λ c. c.entries ≡ d.entries) d refl refl in
      let counted_h = next_code_generation-IsCache d h in
      publish_new-caches o counted (λ e same. ap (find_entry e.key) entries ∙ found e same)
        (absent counted.0 counted_h entries) counted_h valid
        (next_code_generation-both Fits d fits fits)

  publish_existing-caches :
      (o : Option Entry) (c : CodeCache)
      → find_entry key c.entries ≡ o
      → IsCache c
      → holds store f ≡ true
      → Fits c
      → (publish_existing store true key fingerprint f o c).1.cached ≡ true
  unfolding publish_existing erase
  publish_existing-caches none c found h valid fits =
      renewed-caches none c (λ e absent. absurd (ground (arith, absent)))
        (λ d k same. ap (find_entry key) same ∙ found) h valid fits
  publish_existing-caches (some e) c found h valid fits =
      let has_key = find_entry-key key c.entries e found in
      let at = found_again key c.entries e found in
      let erased = count_assumption_invalidation (erase e c) in
      let Cached = λ (r : CodeCache × CodeCachePublication). r.1.cached ≡ true in
      if_both Cached (e.fingerprint == fingerprint) _ _
        (if_both Cached (holds store e.function) _ _ refl (
          renewed-caches none erased (λ d absent. absurd (ground (arith, absent)))
            (λ d k same. ap (find_entry key) same ∙ erased_absent e c h has_key)
            (erase-IsCache e c at h) valid fits))
        (renewed-caches (some e) c
          (λ d same. subst (λ w. find_entry w.key c.entries ≡ some w) (some_injective e d same) at)
          (λ d k same. erased_absent e d k has_key) h valid fits)

-- CodeCache::publish caches whatever it can: with memory, code for the cache's own valid target, under
-- a key that is not empty, whose assumptions hold, in a cache that admits an entry and as many bytes, is
-- cached whatever is resident; the eviction loop never gives up.
pub publish-caches :
    (store : Store Assumption) (key : Text) (fingerprint : ℕ) (f : CompiledFunction) (c : CodeCache)
    → IsCache c
    → is_empty key ≡ false
    → is_ok (validate_target_profile c.target_profile) ≡ true
    → target_profiles_equal f.target_profile c.target_profile ≡ true
    → holds store f ≡ true
    → c.limits.maximum_entries ≢ 0
    → f.executable_mapping_size ≤ c.limits.maximum_code_bytes
    → (publish store true true key fingerprint (some f) c).1.cached ≡ true
unfolding publish
publish-caches store key fingerprint f c h has_key valid_target same_target valid some_entry fits =
    ap (λ (r : CodeCache × CodeCachePublication). r.1.cached)
      (if_false _ _ has_key
        ∙ if_false _ _ (ap not valid_target)
        ∙ if_false _ _ (ap not same_target))
    ∙ publish_existing-caches store key fingerprint f (find_entry key c.entries)
        (count_publication c) refl h valid (some_entry, fits)
