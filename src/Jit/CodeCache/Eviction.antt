-- ===== src/Jit/CodeCache/Eviction.antt =====
-- CodeCache::Impl::evict_one and the eviction loop of publish (src/jit/code_cache.cpp).
use mathlib.Core.Path.{subst}
use uni_jit.Common.{
  ℕ, zero, suc, ◌+◌, ◌≤◌, ◌<◌, ◌≡◌, ◌≢◌, ◌⊎◌, refl, sym, ap, ◌∙◌, true, false, some, List, [], ◌∷◌,
  length, All, arith, Bool-cases, inl, inr, if◌then◌else◌, if_true, if_false,
}
use uni_jit.Jit.CodeCache.{
  Entry, CodeCache, find_entry, erase, oldest, evict_one, evict_from, count_eviction, is_crowded,
  make_room,
}
use uni_jit.Jit.CodeCache.Entries.{
  KeysApart, total_bytes, erase_key-sizes, oldest-All, oldest-least, found_by_key,
}
use uni_jit.Jit.CodeCache.Invariant.{IsCache, erase-IsCache}

-- The victim stands in the cache, and no entry is older.
abbrev pub IsVictim : Entry → List Entry → Type 0
IsVictim v es = (find_entry v.key es ≡ some v) × All (λ e. v.last_access ≤ e.last_access) es

evict_from-cases :
    (c : CodeCache) (es : List Entry)
    → KeysApart es
    → ((es ≡ []) × (evict_from es c ≡ (c, false)))
      ⊎ ((v : Entry) × (evict_from es c ≡ (count_eviction (erase v c), true)) × IsVictim v es)
unfolding evict_from
evict_from-cases c [] h = inl (refl, refl)
evict_from-cases c (e ∷ es) h =
    let found = found_by_key (e ∷ es) h in
    inr (
      oldest e es,
      refl,
      (
        oldest-All (λ v. find_entry v.key (e ∷ es) ≡ some v) e es found.0 found.1,
        oldest-least e es,
      ),
    )

pub evict_one-cases :
    (c : CodeCache)
    → IsCache c
    → ((c.entries ≡ []) × (evict_one c ≡ (c, false)))
      ⊎ ((v : Entry) × (evict_one c ≡ (count_eviction (erase v c), true)) × IsVictim v c.entries)
unfolding evict_one
evict_one-cases c h = evict_from-cases c c.entries h.2

make_room-evicts :
    (rounds code_bytes : ℕ) (c d : CodeCache)
    → is_crowded code_bytes c ≡ true
    → evict_one c ≡ (d, true)
    → make_room (suc rounds) code_bytes c ≡ make_room rounds code_bytes d
unfolding make_room
make_room-evicts rounds code_bytes c d crowded evicts =
    if_true _ _ crowded
    ∙ ap (λ r. if r.1 then make_room rounds code_bytes r.0 else (c, false)) evicts

make_room-stops :
    (rounds code_bytes : ℕ) (c : CodeCache)
    → is_crowded code_bytes c ≡ false
    → make_room (suc rounds) code_bytes c ≡ (c, true)
unfolding make_room
make_room-stops rounds code_bytes c roomy = if_false _ _ roomy

-- What the eviction loop keeps, where every eviction keeps it.
pub make_room-keeps :
    (P : CodeCache → Type 0)
    → ((c : CodeCache) (v : Entry)
        → P c
        → IsCache c
        → IsVictim v c.entries
        → P (count_eviction (erase v c)))
    → (rounds code_bytes : ℕ) (c : CodeCache) → IsCache c
    → P c
    → IsCache (make_room rounds code_bytes c).0 × P (make_room rounds code_bytes c).0
unfolding make_room
make_room-keeps P keeps zero code_bytes c h p = (h, p)
make_room-keeps P keeps (suc rounds) code_bytes c h p =
    elim (Bool-cases (is_crowded code_bytes c)) [
      | inl crowded ↦ elim (evict_one-cases c h) [
        | inl empty ↦
            subst (λ r. IsCache r.0 × P r.0)
              (sym (
                if_true _ _ crowded
                ∙ ap (λ r. if r.1 then make_room rounds code_bytes r.0 else (c, false)) empty.1))
              (h, p)
        | inr (v, evicts, victim) ↦
            subst (λ r. IsCache r.0 × P r.0)
              (sym
                (make_room-evicts rounds code_bytes c (count_eviction (erase v c)) crowded evicts))
              (make_room-keeps P keeps rounds code_bytes (count_eviction (erase v c))
                (erase-IsCache v c victim.0 h) (keeps c v p h victim))
      ]
      | inr roomy ↦
          subst (λ r. IsCache r.0 × P r.0) (sym (make_room-stops rounds code_bytes c roomy)) (h, p)
    ]

-- Where there is nothing left to evict there is room.
empty_roomy :
    (code_bytes : ℕ) (c : CodeCache)
    → IsCache c
    → c.limits.maximum_entries ≢ 0
    → c.entries ≡ []
    → is_crowded code_bytes c ≡ false
empty_roomy code_bytes c h some_entry empty =
    ground (arith, h, some_entry, ap length empty, ap total_bytes empty)

erase-shrinks :
    (v : Entry) (c : CodeCache)
    → find_entry v.key c.entries ≡ some v
    → length (count_eviction (erase v c)).entries + 1 ≡ length c.entries
unfolding erase
erase-shrinks v c found = (erase_key-sizes v.key c.entries v found).0

-- The eviction loop of a publication that fits in the limits ends with room for it, in at most one
-- round more than there are entries: it never gives up.
pub make_room-ends :
    (rounds code_bytes : ℕ) (c : CodeCache)
    → IsCache c
    → c.limits.maximum_entries ≢ 0
    → length c.entries < rounds
    → ((make_room rounds code_bytes c).1 ≡ true)
      × (is_crowded code_bytes (make_room rounds code_bytes c).0 ≡ false)
unfolding erase
make_room-ends zero code_bytes c h some_entry enough = absurd (omega (arith, enough))
make_room-ends (suc rounds) code_bytes c h some_entry enough =
    elim (Bool-cases (is_crowded code_bytes c)) [
      | inl crowded ↦ elim (evict_one-cases c h) [
        | inl empty ↦
            absurd (ground (arith, crowded, empty_roomy code_bytes c h some_entry empty.0))
        | inr (v, evicts, victim) ↦
            subst (λ r. (r.1 ≡ true) × (is_crowded code_bytes r.0 ≡ false))
              (sym
                (make_room-evicts rounds code_bytes c (count_eviction (erase v c)) crowded evicts))
              (make_room-ends rounds code_bytes (count_eviction (erase v c))
                (erase-IsCache v c victim.0 h) some_entry
                (omega (arith, enough, erase-shrinks v c victim.0)))
      ]
      | inr roomy ↦
          subst (λ r. (r.1 ≡ true) × (is_crowded code_bytes r.0 ≡ false))
            (sym (make_room-stops rounds code_bytes c roomy)) (refl, roomy)
    ]
