-- ===== src/Jit/CodeCache/Lookup.antt =====
-- CodeCache::find as an operation on a partial map, and what it finds (src/jit/code_cache.cpp).
use mathlib.Core.Path.{subst}
use uni_jit.Common.{
  ℕ, ◌≡◌, ◌⊎◌, inl, inr, refl, ap, ◌∙◌, Bool, true, false, not, Option, none, some, ◌==◌, ==→eq,
  eq→==, Text, same_text, arith, if_both, if_each, if_false,
}
use uni_jit.Runtime.Assumption.{Assumption, Store}
use uni_jit.Jit.Handle.{CompiledFunction, CodeHandle, invalid_handle, assumptions_valid}
use uni_jit.Jit.CodeCache.{
  Entry, CodeCache, find_entry, erase, next_stamp, holds, used, handle_of, find, find_in, count_hit,
  count_lookup,
}
use uni_jit.Jit.CodeCache.Publish.{publish}
use uni_jit.Jit.CodeCache.Entries.{find_entry-key}
use uni_jit.Jit.CodeCache.Invariant.{IsCache}
use uni_jit.Jit.CodeCache.Recency.{some_injective}
use uni_jit.Jit.CodeCache.View.{view, bound, Forgets, next_stamp-view, used-view, erase-view}
use uni_jit.Jit.CodeCache.Refinement.{publish-IsPublished}

-- The outcome of a lookup as one of a partial map: no other key is touched; the handle is invalid, and
-- the key is bound as before or to nothing, or it is the one bound to the key with the fingerprint,
-- its assumptions hold, and the binding stays.
abbrev pub IsFound : Store Assumption → Text → ℕ → CodeCache → CodeCache × CodeHandle → Type 0
IsFound store key fingerprint c r =
    ((other : Text) → same_text key other ≡ false → view r.0 other ≡ view c other)
    × (((r.1 ≡ invalid_handle) × Forgets key c r.0)
        ⊎ ((view c key ≡ some (fingerprint, r.1))
            × (assumptions_valid store r.1 ≡ true)
            × (view r.0 key ≡ view c key)))

module _ (store : Store Assumption) (key : Text) (fingerprint : ℕ) where
  hit-IsFound :
      (c : CodeCache) (e : Entry)
      → find_entry key c.entries ≡ some e
      → (e.fingerprint == fingerprint) ≡ true
      → holds store e.function ≡ true
      → IsFound store key fingerprint c (used e (next_stamp (count_hit c)), handle_of e)
  unfolding assumptions_valid
  hit-IsFound c e found same valid = (
    λ other differs. seen other,
    inr (ap bound found ∙ ap (λ n. some (n, handle_of e)) (==→eq same), valid, seen key),
  )
    where
      seen : (k : Text) → view (used e (next_stamp (count_hit c))) k ≡ view c k
      seen k = used-view e (next_stamp (count_hit c)) k ∙ next_stamp-view (count_hit c) k

  find_in-IsFound :
      (c : CodeCache) (o : Option Entry)
      → find_entry key c.entries ≡ o
      → IsCache c
      → IsFound store key fingerprint c (find_in store fingerprint c o)
  unfolding find_in
  find_in-IsFound c none found h = (λ other differs. refl, inl (refl, inl refl))
  find_in-IsFound c (some e) found h =
      let has_key = find_entry-key key c.entries e found in
      let Outcome = IsFound store key fingerprint c in
      if_each Outcome (not (e.fingerprint == fingerprint)) _ _
        (λ differs. (λ other apart. refl, inl (refl, inl refl)))
        (λ same.
          if_each Outcome (not (holds store e.function)) _ _
            (λ broken. (
              λ other apart.
                  (erase-view e c h).1 other (ap (λ k. same_text k other) has_key ∙ apart),
              inl (refl, inr (subst (λ k. view (erase e c) k ≡ none) has_key (erase-view e c h).0)),
            ))
            (λ valid. hit-IsFound c e found (ground (arith, same)) (ground (arith, valid))))

  find_in-hits :
      (c : CodeCache) (o : Option Entry) (handle : CodeHandle)
      → bound o ≡ some (fingerprint, handle)
      → assumptions_valid store handle ≡ true
      → (find_in store fingerprint c o).1 ≡ handle
  unfolding find_in assumptions_valid
  find_in-hits c none handle at valid = absurd (ground (arith, at))
  find_in-hits c (some e) handle at valid =
      let pair = some_injective (e.fingerprint, handle_of e) (fingerprint, handle) at in
      let same = eq→== {a = e.fingerprint} {b = fingerprint} (ap (λ p. p.0) pair) in
      let held = ap (λ p. assumptions_valid store p.1) pair ∙ valid in
      ap (λ (r : CodeCache × CodeHandle). r.1)
        (if_false _ _ (ap not same) ∙ if_false _ _ (ap not held))
      ∙ ap (λ p. p.1) pair

pub find-IsFound :
    (store : Store Assumption) (allocated : Bool) (key : Text) (fingerprint : ℕ) (c : CodeCache)
    → IsCache c
    → IsFound store key fingerprint c (find store allocated key fingerprint c)
unfolding find
find-IsFound store allocated key fingerprint c h =
    if_both (IsFound store key fingerprint c) allocated _ _
      (find_in-IsFound store key fingerprint (count_lookup c) (find_entry key c.entries) refl h)
      (λ other apart. refl, inl (refl, inl refl))

-- CodeCache::find as an operation on a partial map: another key is not touched; and either it gives no
-- handle and forgets at most the key that it was asked for, or it gives the handle bound to the key with
-- that fingerprint, whose assumptions hold, and the binding stays.
pub find_refines :
    (store : Store Assumption) (allocated : Bool) (key other : Text) (fingerprint : ℕ)
    (c : CodeCache)
    → IsCache c
    → same_text key other ≡ false
    → (let r = find store allocated key fingerprint c in
        (view r.0 other ≡ view c other)
        × (((r.1 ≡ invalid_handle) × Forgets key c r.0)
            ⊎ ((view c key ≡ some (fingerprint, r.1))
                × (assumptions_valid store r.1 ≡ true)
                × (view r.0 key ≡ view c key))))
find_refines store allocated key other fingerprint c h differs =
    let found = find-IsFound store allocated key fingerprint c h in (found.0 other differs, found.1)

-- Code that a publication says is cached is what the next lookup of its key and fingerprint gives.
pub find-publish :
    (store : Store Assumption) (key_allocated entry_allocated : Bool) (key : Text) (fingerprint : ℕ)
    (f : Option CompiledFunction) (c : CodeCache)
    → IsCache c
    → (publish store key_allocated entry_allocated key fingerprint f c).1.cached ≡ true
    → (let r = publish store key_allocated entry_allocated key fingerprint f c in
        (find store true key fingerprint r.0).1 ≡ r.1.handle)
unfolding find
find-publish store key_allocated entry_allocated key fingerprint f c h cached =
    let r = publish store key_allocated entry_allocated key fingerprint f c in
    let at =
      (publish-IsPublished store key_allocated entry_allocated key fingerprint f c h).1 cached in
    find_in-hits store key fingerprint (count_lookup r.0) (find_entry key r.0.entries) r.1.handle
      at.0 at.1
