-- ===== src/Jit/CodeCache/Recency.antt =====
-- Which entries the eviction loop of CodeCache::publish takes (src/jit/code_cache.cpp).
use mathlib.Core.Path.{subst}
use uni_jit.Common.{
  ℕ, ◌≤◌, ◌≡◌, ◌⊎◌, inl, inr, refl, sym, ap, ◌∙◌, none, some, List, All, Bool-cases, Text,
  same_text, same_text→eq,
}
use uni_jit.Jit.CodeCache.{Entry, CodeCache, find_entry, erase_key, erase, make_room}
use uni_jit.Jit.CodeCache.Entries.{
  KeysApart, find_entry-erase_key, find_entry-erase_key_ne, find_entry-erase_key-none,
  erase_key-All,
}
use uni_jit.Jit.CodeCache.Invariant.{IsCache}
use uni_jit.Jit.CodeCache.Eviction.{IsVictim, make_room-keeps}

-- The entry `e` of a key is there, or it is gone and every entry left was used no earlier.
abbrev pub StaysOrOldest : Text → Entry → List Entry → Type 0
StaysOrOldest key e es =
    (find_entry key es ≡ some e)
    ⊎ ((find_entry key es ≡ none) × All (λ s. e.last_access ≤ s.last_access) es)

pub some_injective : {A : Type 0} (x y : A) → some x ≡ some y → x ≡ y
some_injective x y same = ap (λ o. elim o [ none ↦ x | some a ↦ a ]) same

erase_key-StaysOrOldest :
    (key : Text) (e v : Entry) (es : List Entry)
    → KeysApart es
    → IsVictim v es
    → StaysOrOldest key e es
    → StaysOrOldest key e (erase_key v.key es)
erase_key-StaysOrOldest key e v es apart victim (inr gone) = inr (
  find_entry-erase_key-none v.key key es gone.0,
  erase_key-All (λ s. e.last_access ≤ s.last_access) v.key es gone.1,
)
erase_key-StaysOrOldest key e v es apart victim (inl found) =
    elim (Bool-cases (same_text v.key key)) [
      | inl same ↦
          let same_key = same_text→eq v.key key same in
          let same_entry =
            some_injective v e (sym victim.0 ∙ ap (λ k. find_entry k es) same_key ∙ found) in
          inr (
            subst (λ k. find_entry k (erase_key v.key es) ≡ none) same_key
                (find_entry-erase_key v.key es apart),
            erase_key-All (λ s. e.last_access ≤ s.last_access) v.key es
                (subst (λ w. All (λ s. w.last_access ≤ s.last_access) es) same_entry victim.1),
          )
      | inr other ↦ inl (find_entry-erase_key_ne v.key key es other ∙ found)
    ]

-- Least recently used first: after the eviction loop an entry is still there unchanged, or it is gone
-- and every entry that is left was used no earlier than it.
pub make_room-lru :
    (rounds code_bytes : ℕ) (c : CodeCache) (key : Text) (e : Entry)
    → IsCache c
    → find_entry key c.entries ≡ some e
    → StaysOrOldest key e (make_room rounds code_bytes c).0.entries
unfolding erase
make_room-lru rounds code_bytes c key e h found =
    (make_room-keeps (λ d. StaysOrOldest key e d.entries)
      (λ d v p k victim. erase_key-StaysOrOldest key e v d.entries k.2 victim p) rounds code_bytes c
      h (inl found)).1

-- The eviction loop adds no key.
pub make_room-absent :
    (rounds code_bytes : ℕ) (c : CodeCache) (key : Text)
    → IsCache c
    → find_entry key c.entries ≡ none
    → find_entry key (make_room rounds code_bytes c).0.entries ≡ none
unfolding erase
make_room-absent rounds code_bytes c key h absent =
    (make_room-keeps (λ d. find_entry key d.entries ≡ none)
      (λ d v p k victim. find_entry-erase_key-none v.key key d.entries p) rounds code_bytes c h
      absent).1

pub make_room-limits :
    (rounds code_bytes : ℕ) (c : CodeCache)
    → IsCache c
    → (make_room rounds code_bytes c).0.limits ≡ c.limits
unfolding erase
make_room-limits rounds code_bytes c h =
    (make_room-keeps (λ d. d.limits ≡ c.limits) (λ d v p k victim. p) rounds code_bytes c h refl).1
