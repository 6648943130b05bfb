-- ===== src/Jit/CodeCache/View.antt =====
-- A code cache as a partial map from keys to fingerprints and handles (src/jit/code_cache.cpp).
use uni_jit.Common.{
  ℕ, ◌≡◌, ◌⊎◌, inl, inr, refl, sym, ap, ◌∙◌, false, Option, none, some, List, [], ◌∷◌, map,
  Option-cases, Text, same_text, arith,
}
use uni_jit.Jit.Handle.{CodeHandle}
use uni_jit.Jit.CodeCache.{
  Entry, CodeCache, find_entry, touch, erase, make_room, next_stamp, next_code_generation, used,
  forget_access, handle_of,
}
use uni_jit.Jit.CodeCache.Entries.{find_entry-erase_key, find_entry-erase_key_ne}
use uni_jit.Jit.CodeCache.Invariant.{IsCache}
use uni_jit.Jit.CodeCache.Recency.{make_room-lru, make_room-absent}
use uni_jit.Jit.CodeCache.Publication.{next_stamp-both, next_code_generation-both}

abbrev pub bound : Option Entry → Option (ℕ × CodeHandle)
bound none = none
bound (some e) = some (e.fingerprint, handle_of e)

abbrev pub view_entries : List Entry → Text → Option (ℕ × CodeHandle)
view_entries es key = bound (find_entry key es)

abbrev pub view : CodeCache → Text → Option (ℕ × CodeHandle)
view c key = view_entries c.entries key

-- A key is bound as before, or to nothing.
abbrev pub Forgets : Text → CodeCache → CodeCache → Type 0
Forgets key c d = (view d key ≡ view c key) ⊎ (view d key ≡ none)

pub Forgets-trans :
    (key : Text) (b c d : CodeCache) → Forgets key b c → Forgets key c d → Forgets key b d
Forgets-trans key b c d (inl same) (inl kept) = inl (kept ∙ same)
Forgets-trans key b c d (inr gone) (inl kept) = inr (kept ∙ gone)
Forgets-trans key b c d first (inr gone) = inr gone

-- How recently an entry was used is not seen.
pub view_entries-touch :
    (key other : Text) (stamp : ℕ) (es : List Entry)
    → view_entries (touch key stamp es) other ≡ view_entries es other
view_entries-touch key other stamp [] = refl
view_entries-touch key other stamp (d ∷ es) = ground (arith, view_entries-touch key other stamp es)

view_entries-forget :
    (other : Text) (es : List Entry)
    → view_entries (map forget_access es) other ≡ view_entries es other
view_entries-forget other [] = refl
view_entries-forget other (d ∷ es) = ground (arith, view_entries-forget other es)

pub next_stamp-view : (c : CodeCache) (key : Text) → view (next_stamp c).0 key ≡ view c key
next_stamp-view c key =
    next_stamp-both (λ d. view d key ≡ view c key) c (view_entries-forget key c.entries) refl

pub next_code_generation-entries : (c : CodeCache) → (next_code_generation c).0.entries ≡ c.entries
next_code_generation-entries c = next_code_generation-both (λ d. d.entries ≡ c.entries) c refl refl

pub used-view : (e : Entry) (r : CodeCache × ℕ) (key : Text) → view (used e r) key ≡ view r.0 key
used-view e (c, stamp) key = view_entries-touch e.key key stamp c.entries

pub make_room-view :
    (rounds code_bytes : ℕ) (c : CodeCache) (key : Text)
    → IsCache c
    → Forgets key c (make_room rounds code_bytes c).0
make_room-view rounds code_bytes c key h = elim (Option-cases (find_entry key c.entries)) [
  | inl absent ↦ inr (ap bound (make_room-absent rounds code_bytes c key h absent))
  | inr (e, found) ↦ elim (make_room-lru rounds code_bytes c key e h found) [
    | inl stays ↦ inl (ap bound (stays ∙ sym found))
    | inr gone ↦ inr (ap bound gone.0)
  ]
]

-- Erasing an entry unbinds its key and no other.
pub erase-view :
    (e : Entry) (c : CodeCache)
    → IsCache c
    → (view (erase e c) e.key ≡ none)
      × ((other : Text) → same_text e.key other ≡ false → view (erase e c) other ≡ view c other)
unfolding erase
erase-view e c h = (
  ap bound (find_entry-erase_key e.key c.entries h.2),
  λ other differs. ap bound (find_entry-erase_key_ne e.key other c.entries differs),
)
