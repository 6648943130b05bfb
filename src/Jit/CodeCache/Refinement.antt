-- ===== src/Jit/CodeCache/Refinement.antt =====
-- The operations of CodeCache as operations on a partial map (src/jit/code_cache.cpp).
use mathlib.Core.Path.{subst}
use uni_jit.Common.{
  inl, inr, Bool-cases, ℕ, ◌≡◌, ◌⊎◌, inl, refl, sym, ap, ◌∙◌, Bool, true, false, not, ◌||◌, Option,
  none, some, ltb, ◌==◌, Text, is_empty, same_text, same_text_refl, arith, if_both, if_each,
  if_true, if_false, ==→eq,
}
use uni_jit.Status.{StatusCode, is_ok}
use uni_jit.Runtime.Assumption.{Assumption, Store}
use uni_jit.Jit.Target.{validate_target_profile, target_profiles_equal}
use uni_jit.Jit.Handle.{CompiledFunction, assumptions_valid}
use uni_jit.Jit.CodeCache.{
  Entry, CodeCache, find_entry, erase, make_room, next_stamp, next_code_generation, holds, used,
  handle_of, count_assumption_invalidation,
}
use uni_jit.Jit.CodeCache.Publish.{
  CodeCachePublication, emplace, emplace_at, place, publish_new, publish_existing, publish,
  replace_existing, published, count_reuse, count_publication, refused,
}
use uni_jit.Jit.CodeCache.Entries.{find_entry-key}
use uni_jit.Jit.CodeCache.Invariant.{
  IsCache, erase-IsCache, found_again, next_code_generation-IsCache,
}
use uni_jit.Jit.CodeCache.Publication.{replace_existing-IsCache}
use uni_jit.Jit.CodeCache.Recency.{some_injective}
use uni_jit.Jit.CodeCache.View.{
  view, bound, Forgets, Forgets-trans, next_stamp-view, next_code_generation-entries, used-view,
  make_room-view, erase-view,
}

-- The outcome of a publication as one of a partial map: every other key is bound as before or to
-- nothing; where the code is cached, the key is bound to the handle that is returned, whose
-- assumptions hold.
abbrev pub IsPublished :
    Store Assumption → Text → ℕ → CodeCache → CodeCache × CodeCachePublication → Type 0
IsPublished store key fingerprint c r =
    ((other : Text) → same_text key other ≡ false → Forgets other c r.0)
    × (r.1.cached ≡ true
        → (view r.0 key ≡ some (fingerprint, r.1.handle))
          × (assumptions_valid store r.1.handle ≡ true))

module _ (store : Store Assumption) (entry_allocated : Bool) (key : Text) (fingerprint : ℕ)
    (f : CompiledFunction) where
  abbrev Published : CodeCache → CodeCache × CodeCachePublication → Type 0
  Published c r = IsPublished store key fingerprint c r

  -- What was forgotten before a publication is forgotten by it.
  Published-after :
      (c d : CodeCache) (r : CodeCache × CodeCachePublication)
      → ((other : Text) → same_text key other ≡ false → Forgets other c d)
      → Published d r
      → Published c r
  Published-after c d r before published = (
    λ other differs. Forgets-trans other c d r.0 (before other differs) (published.0 other differs),
    published.1,
  )

  uncached-Published :
      (c : CodeCache) (r : CodeCache × CodeCachePublication)
      → r.1.cached ≡ false
      → r.0.entries ≡ c.entries
      → Published c r
  uncached-Published c r not_cached same = (
    λ other differs. inl (ap (λ es. bound (find_entry other es)) same),
    λ cached. absurd (ground (arith, cached, not_cached)),
  )

  emplace_at-Published :
      (g : ℕ) (stamped : CodeCache × ℕ) (o : Option Entry)
      → holds store f ≡ true
      → Published stamped.0 (emplace_at store entry_allocated key fingerprint f g stamped o)
  unfolding emplace_at assumptions_valid
  emplace_at-Published g (c, stamp) (some present) valid =
      uncached-Published c
        (emplace_at store entry_allocated key fingerprint f g (c, stamp) (some present)) refl refl
  emplace_at-Published g (c, stamp) none valid = (
    λ other differs. inl (ap bound (if_false _ _ differs)),
    λ cached. (ap bound (if_true _ _ (same_text_refl key)), valid),
  )

  place-Published :
      (g : ℕ) (c : CodeCache) (done : Bool)
      → holds store f ≡ true
      → Published c (place store entry_allocated key fingerprint f g (c, done))
  unfolding emplace
  place-Published g c false valid =
      uncached-Published c (place store entry_allocated key fingerprint f g (c, false)) refl refl
  place-Published g c true valid =
      Published-after c (next_stamp c).0
        (emplace store entry_allocated key fingerprint f g (next_stamp c))
        (λ other differs. inl (next_stamp-view c other))
        (if_both (Published (next_stamp c).0) entry_allocated _ _
          (emplace_at-Published g (next_stamp c) (find_entry key (next_stamp c).0.entries) valid)
          (uncached-Published (next_stamp c).0
            ((next_stamp c).0, refused StatusCode.resource_exhausted) refl refl))

  replace_existing-Forgets :
      (o : Option Entry) (c : CodeCache) (other : Text)
      → ((e : Entry) → o ≡ some e → e.key ≡ key)
      → IsCache c
      → same_text key other ≡ false
      → Forgets other c (replace_existing store entry_allocated key fingerprint f o c)
  replace_existing-Forgets none c other found h differs = inl refl
  replace_existing-Forgets (some e) c other found h differs =
      inl ((erase-view e c h).1 other (ap (λ k. same_text k other) (found e refl) ∙ differs))

  room_made-Published :
      (g rounds : ℕ) (o : Option Entry) (c : CodeCache)
      → ((e : Entry) → o ≡ some e → (find_entry e.key c.entries ≡ some e) × (e.key ≡ key))
      → IsCache c
      → holds store f ≡ true
      → (let cleared = replace_existing store entry_allocated key fingerprint f o c in
          Published c (
            place store entry_allocated key fingerprint f g
              (make_room rounds f.executable_mapping_size cleared)))
  room_made-Published g rounds o c found h valid =
      let cleared = replace_existing store entry_allocated key fingerprint f o c in
      let made = make_room rounds f.executable_mapping_size cleared in
      let cleared_h =
        (replace_existing-IsCache store entry_allocated key fingerprint f o c
          (λ e same. (found e same).0) h).0 in
      Published-after c made.0 (place store entry_allocated key fingerprint f g made)
        (λ other differs.
          Forgets-trans other c cleared made.0
            (replace_existing-Forgets o c other (λ e same. (found e same).1) h differs)
            (make_room-view rounds f.executable_mapping_size cleared other cleared_h))
        (place-Published g made.0 made.1 valid)

  publish_new-Published :
      (o : Option Entry) (r : CodeCache × ℕ)
      → ((e : Entry) → o ≡ some e → (find_entry e.key r.0.entries ≡ some e) × (e.key ≡ key))
      → IsCache r.0
      → Published r.0 (publish_new store entry_allocated key fingerprint f o r)
  unfolding publish_new
  publish_new-Published o (c, g) found h =
      if_each (Published c)
        (not (holds store f)
          || c.limits.maximum_entries == 0
          || ltb c.limits.maximum_code_bytes f.executable_mapping_size)
        _ _
        (λ rejected.
          uncached-Published c (place store entry_allocated key fingerprint f g (c, false)) refl
            refl)
        (λ accepted. room_made-Published g _ o c found h (accepted_holds accepted))
    where
      accepted_holds :
          (not (holds store f)
              || c.limits.maximum_entries == 0
              || ltb c.limits.maximum_code_bytes f.executable_mapping_size)
            ≡ false
          → holds store f ≡ true
      accepted_holds accepted = ground (arith, accepted)

  renewed-Published :
      (o : Option Entry) (c d : CodeCache)
      → ((e : Entry) → o ≡ some e → (find_entry e.key d.entries ≡ some e) × (e.key ≡ key))
      → ((other : Text) → same_text key other ≡ false → Forgets other c d)
      → IsCache d
      → Published c (publish_new store entry_allocated key fingerprint f o (next_code_generation d))
  renewed-Published o c d found before h =
      let counted = next_code_generation d in
      Published-after c counted.0 (publish_new store entry_allocated key fingerprint f o counted)
        (λ other differs.
          subst
            (λ es.
              (bound (find_entry other es) ≡ view c other) ⊎ (bound (find_entry other es) ≡ none))
            (sym (next_code_generation-entries d)) (before other differs))
        (publish_new-Published o counted
          (λ e same. (next_code_generation-entries-found e (found e same).0, (found e same).1))
          (next_code_generation-IsCache d h))
    where
      next_code_generation-entries-found :
          (e : Entry)
          → find_entry e.key d.entries ≡ some e
          → find_entry e.key (next_code_generation d).0.entries ≡ some e
      next_code_generation-entries-found e at =
          ap (find_entry e.key) (next_code_generation-entries d) ∙ at

  reused-Published :
      (e : Entry) (c : CodeCache)
      → find_entry key c.entries ≡ some e
      → (e.fingerprint == fingerprint) ≡ true
      → holds store e.function ≡ true
      → Published c (used e (next_stamp (count_reuse c)), published (handle_of e) true true)
  unfolding assumptions_valid
  reused-Published e c found same valid = (
    λ other differs. inl (seen other),
    λ cached. (seen key ∙ ap bound found ∙ ap (λ n. some (n, handle_of e)) (==→eq same), valid),
  )
    where
      seen : (k : Text) → view (used e (next_stamp (count_reuse c))) k ≡ view c k
      seen k = used-view e (next_stamp (count_reuse c)) k ∙ next_stamp-view (count_reuse c) k

  publish_existing-Published :
      (o : Option Entry) (c : CodeCache)
      → find_entry key c.entries ≡ o
      → IsCache c
      → Published c (publish_existing store entry_allocated key fingerprint f o c)
  unfolding publish_existing
  publish_existing-Published none c found h =
      renewed-Published none c c (λ e absent. absurd (ground (arith, absent)))
        (λ other differs. inl refl) h
  publish_existing-Published (some e) c found h =
      let has_key = find_entry-key key c.entries e found in
      let at = found_again key c.entries e found in
      let erased = count_assumption_invalidation (erase e c) in
      if_each (Published c) (e.fingerprint == fingerprint) _ _
        (λ same.
          if_each (Published c) (holds store e.function) _ _
            (λ valid. reused-Published e c found same valid)
            (λ broken.
              renewed-Published none c erased (λ d absent. absurd (ground (arith, absent)))
                (λ other differs.
                  inl ((erase-view e c h).1 other (ap (λ k. same_text k other) has_key ∙ differs)))
                (erase-IsCache e c at h)))
        (λ differs.
          renewed-Published (some e) c c
            (λ d same.
              subst (λ w. (find_entry w.key c.entries ≡ some w) × (w.key ≡ key))
                (some_injective e d same) (at, has_key))
            (λ other apart. inl refl) h)

pub publish-IsPublished :
    (store : Store Assumption) (key_allocated entry_allocated : Bool) (key : Text) (fingerprint : ℕ)
    (f : Option CompiledFunction) (c : CodeCache)
    → IsCache c
    → IsPublished store key fingerprint c
        (publish store key_allocated entry_allocated key fingerprint f c)
unfolding publish
publish-IsPublished store key_allocated entry_allocated key fingerprint none c h =
    (λ other differs. inl refl, λ cached. absurd (ground (arith, cached)))
publish-IsPublished store key_allocated entry_allocated key fingerprint (some f) c h =
    let refusal = λ (code : StatusCode).
      uncached-Published store entry_allocated key fingerprint f c (c, refused code) refl refl in
    let Result = IsPublished store key fingerprint c in
    if_both Result (is_empty key) _ _ (refusal StatusCode.invalid_argument) (
      if_both Result (not (is_ok (validate_target_profile c.target_profile))) _ _
        (refusal StatusCode.invalid_argument)
        (if_both Result (not (target_profiles_equal f.target_profile c.target_profile)) _ _
          (refusal StatusCode.invalid_argument)
          (if_both Result key_allocated _ _
            (publish_existing-Published store entry_allocated key fingerprint f
              (find_entry key c.entries) (count_publication c) refl h)
            (refusal StatusCode.resource_exhausted))))

-- CodeCache::publish as an operation on a partial map, with memory or short of it: another key is bound
-- as before or to nothing, and either the result says that the code is not cached, or the published key is
-- bound to the fingerprint and the handle returned, whose assumptions hold.
pub publish_refines :
    (store : Store Assumption) (key_allocated entry_allocated : Bool) (key other : Text)
    (fingerprint : ℕ) (f : Option CompiledFunction) (c : CodeCache)
    → IsCache c
    → same_text key other ≡ false
    → (let r = publish store key_allocated entry_allocated key fingerprint f c in
        Forgets other c r.0
        × ((r.1.cached ≡ false)
            ⊎ ((view r.0 key ≡ some (fingerprint, r.1.handle))
                × (assumptions_valid store r.1.handle ≡ true))))
publish_refines store key_allocated entry_allocated key other fingerprint f c h differs =
    let r = publish store key_allocated entry_allocated key fingerprint f c in
    let published = publish-IsPublished store key_allocated entry_allocated key fingerprint f c h in
    (
      published.0 other differs,
      elim (Bool-cases r.1.cached) [
        | inl cached ↦ inr (published.1 cached)
        | inr not_cached ↦ inl not_cached
      ],
    )
