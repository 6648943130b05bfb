-- ===== src/Jit/CodeCache/Entries.antt =====
-- The entries of a code cache, as a table (src/jit/code_cache.cpp).
use mathlib.Core.Path.{subst}
use uni_jit.Common.{
  ℕ, ◌+◌, ◌≤◌, ◌≡◌, inl, inr, refl, ap, ◌∙◌, true, false, none, some, List, [], ◌∷◌, map, length,
  find_if-none, All, ltb, if◌then◌else◌, if_both, Text, same_text, same_text_refl, same_text→eq,
  arith, Bool-cases,
}
use uni_jit.Jit.CodeCache.{Entry, find_entry, erase_key, touch, oldest, forget_access}

-- No two entries have the same key.
abbrev pub KeysApart : List Entry → Type 0
KeysApart [] = Unit
KeysApart (e ∷ es) = (find_entry e.key es ≡ none) × KeysApart es

abbrev pub total_bytes : List Entry → ℕ
total_bytes [] = 0
total_bytes (e ∷ es) = e.code_bytes + total_bytes es

-- What find_entry finds has the key.
pub find_entry-key :
    (key : Text) (es : List Entry) (e : Entry) → find_entry key es ≡ some e → e.key ≡ key
find_entry-key key [] e h = absurd (ground (arith, h))
find_entry-key key (d ∷ es) e h = elim (Bool-cases (same_text d.key key)) [
  | inl hit ↦ same_text→eq e.key key (ground (arith, h, hit))
  | inr miss ↦ find_entry-key key es e (ground (arith, h, miss))
]

-- Two texts that are the same differ from the same texts.
same_text_other :
    (a b c : Text) → same_text a b ≡ true → same_text b c ≡ false → same_text a c ≡ false
same_text_other a b c same differs = ap (λ t. same_text t c) (same_text→eq a b same) ∙ differs

same_text_sym : (a b : Text) → same_text b a ≡ false → same_text a b ≡ false
same_text_sym a b differs = elim (Bool-cases (same_text a b)) [
  | inl same ↦ absurd (ground (arith, differs, same_text_other a b a same, same_text_refl a))
  | inr not_same ↦ not_same
]

-- Erasing the key of an entry takes just that entry.
pub erase_key-sizes :
    (key : Text) (es : List Entry) (e : Entry)
    → find_entry key es ≡ some e
    → (length (erase_key key es) + 1 ≡ length es)
      × (total_bytes (erase_key key es) + e.code_bytes ≡ total_bytes es)
erase_key-sizes key [] e h = absurd (ground (arith, h))
erase_key-sizes key (d ∷ es) e h = grind (arith, h, erase_key-sizes key es e)

pub find_entry-erase_key_ne :
    (key other : Text) (es : List Entry)
    → same_text key other ≡ false
    → find_entry other (erase_key key es) ≡ find_entry other es
find_entry-erase_key_ne key other [] h = refl
find_entry-erase_key_ne key other (d ∷ es) h = elim (Bool-cases (same_text d.key key)) [
  | inl hit ↦ ground (arith, hit, same_text_other d.key key other hit h)
  | inr miss ↦ ground (arith, miss, find_entry-erase_key_ne key other es h)
]

pub find_entry-erase_key-none :
    (key other : Text) (es : List Entry)
    → find_entry other es ≡ none
    → find_entry other (erase_key key es) ≡ none
find_entry-erase_key-none key other [] h = refl
find_entry-erase_key-none key other (d ∷ es) h =
    ground (arith, h, find_entry-erase_key-none key other es)

pub erase_key-KeysApart :
    (key : Text) (es : List Entry) → KeysApart es → KeysApart (erase_key key es)
erase_key-KeysApart key [] h = h
erase_key-KeysApart key (d ∷ es) h =
    if_both KeysApart (same_text d.key key) es (d ∷ erase_key key es) h.1
      (find_entry-erase_key-none key d.key es h.0, erase_key-KeysApart key es h.1)

-- Under distinct keys, erasing a key leaves no entry of it.
pub find_entry-erase_key :
    (key : Text) (es : List Entry) → KeysApart es → find_entry key (erase_key key es) ≡ none
find_entry-erase_key key [] h = refl
find_entry-erase_key key (d ∷ es) h = elim (Bool-cases (same_text d.key key)) [
  | inl hit ↦ ground (arith, hit, apart (same_text→eq d.key key hit))
  | inr miss ↦ ground (arith, miss, find_entry-erase_key key es h.1)
]
  where
    apart : d.key ≡ key → find_entry key es ≡ none
    apart same = subst (λ k. find_entry k es ≡ none) same h.0

-- A touched entry keeps its key, and nothing else moves.
pub find_entry-touch-none :
    (key other : Text) (stamp : ℕ) (es : List Entry)
    → find_entry other es ≡ none
    → find_entry other (touch key stamp es) ≡ none
find_entry-touch-none key other stamp [] h = refl
find_entry-touch-none key other stamp (d ∷ es) h =
    ground (arith, h, find_entry-touch-none key other stamp es)

pub touch-KeysApart :
    (key : Text) (stamp : ℕ) (es : List Entry) → KeysApart es → KeysApart (touch key stamp es)
touch-KeysApart key stamp [] h = h
touch-KeysApart key stamp (d ∷ es) h =
    if_both KeysApart (same_text d.key key) (record d { last_access = stamp } ∷ es)
      (d ∷ touch key stamp es) h
      (find_entry-touch-none key d.key stamp es h.0, touch-KeysApart key stamp es h.1)

pub touch-sizes :
    (key : Text) (stamp : ℕ) (es : List Entry)
    → (length (touch key stamp es) ≡ length es)
      × (total_bytes (touch key stamp es) ≡ total_bytes es)
touch-sizes key stamp [] = (refl, refl)
touch-sizes key stamp (d ∷ es) = ground (arith, touch-sizes key stamp es)

pub find_entry-touch_ne :
    (key other : Text) (stamp : ℕ) (es : List Entry)
    → same_text key other ≡ false
    → find_entry other (touch key stamp es) ≡ find_entry other es
find_entry-touch_ne key other stamp [] h = refl
find_entry-touch_ne key other stamp (d ∷ es) h = elim (Bool-cases (same_text d.key key)) [
  | inl hit ↦ ground (arith, hit, same_text_other d.key key other hit h)
  | inr miss ↦ ground (arith, miss, find_entry-touch_ne key other stamp es h)
]

-- All stamps forgotten.
pub forget-sizes :
    (es : List Entry)
    → (length (map forget_access es) ≡ length es)
      × (total_bytes (map forget_access es) ≡ total_bytes es)
forget-sizes [] = (refl, refl)
forget-sizes (d ∷ es) = ground (arith, forget-sizes es)

pub find_entry-forget_none :
    (key : Text) (es : List Entry)
    → find_entry key es ≡ none
    → find_entry key (map forget_access es) ≡ none
find_entry-forget_none key [] h = refl
find_entry-forget_none key (d ∷ es) h = ground (arith, h, find_entry-forget_none key es)

pub forget-KeysApart : (es : List Entry) → KeysApart es → KeysApart (map forget_access es)
forget-KeysApart [] h = h
forget-KeysApart (d ∷ es) h = (find_entry-forget_none d.key es h.0, forget-KeysApart es h.1)

-- What std::min_element gives stands in the list, and nothing there is older.
pub oldest-All :
    (P : Entry → Type 0) (best : Entry) (es : List Entry) → P best → All P es → P (oldest best es)
oldest-All P best [] p all = p
oldest-All P best (e ∷ es) p all =
    oldest-All P (if ltb e.last_access best.last_access then e else best) es
      (if_both P (ltb e.last_access best.last_access) e best all.0 p) all.1

older_of :
    (best e : Entry)
    → ((if ltb e.last_access best.last_access then e else best).last_access ≤ best.last_access)
      × ((if ltb e.last_access best.last_access then e else best).last_access ≤ e.last_access)
older_of best e = ground arith

pub oldest-least :
    (best : Entry) (es : List Entry)
    → ((oldest best es).last_access ≤ best.last_access)
      × All (λ e. (oldest best es).last_access ≤ e.last_access) es
oldest-least best [] = (omega arith, _)
oldest-least best (e ∷ es) =
    let winner = if ltb e.last_access best.last_access then e else best in
    let least = oldest-least winner es in
    (
      omega (arith, least.0, (older_of best e).0),
      (omega (arith, least.0, (older_of best e).1), least.1),
    )

-- Under distinct keys, an entry's key finds that entry.
pub found_by_key : (es : List Entry) → KeysApart es → All (λ e. find_entry e.key es ≡ some e) es
found_by_key [] h = _
found_by_key (d ∷ es) h = (
  ground (arith, same_text_refl d.key),
  later es es (find_if-none (λ e. same_text e.key d.key) es h.0) (found_by_key es h.1),
)
  where
    later :
        (all es : List Entry)
        → All (λ e. same_text e.key d.key ≡ false) es
        → All (λ e. find_entry e.key all ≡ some e) es
        → All (λ e. find_entry e.key (d ∷ all) ≡ some e) es
    later all [] u v = _
    later all (e ∷ es) u v =
        (ground (arith, same_text_sym d.key e.key u.0, v.0), later all es u.1 v.1)

-- What holds of every entry holds of those that an erasure leaves.
pub erase_key-All :
    (P : Entry → Type 0) (key : Text) (es : List Entry) → All P es → All P (erase_key key es)
erase_key-All P key [] h = h
erase_key-All P key (d ∷ es) h =
    if_both (All P) (same_text d.key key) es (d ∷ erase_key key es) h.1
      (h.0, erase_key-All P key es h.1)
