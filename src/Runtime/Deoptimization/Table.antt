-- ===== src/Runtime/Deoptimization/Table.antt =====
-- DeoptimizationTable.add keeps the table well formed (src/runtime/deoptimization.cpp).
use mathlib.Core.List.{append_assoc, append-nil}
use mathlib.Core.Path.{subst}
use uni_jit.Common.{
  ℕ, ◌+◌, Bool, true, false, none, some, List, [], ◌∷◌, ◌++◌, ◌≡◌, ◌≢◌, refl, eq→==, sym, ap, ◌∙◌,
  ◌⊎◌, inl, inr, All, All-append, Distinct, Distinct-append, find_if, find_if-append, ==_refl, ◌==◌,
  arith, Option-cases,
}
use uni_jit.Status.{Status, ok_status, is_ok}
use uni_jit.Ir.Opcode.{ValueType}
use uni_jit.Runtime.Deoptimization.{
  RecoverySource, invalid_id, valid_value_type, RecoveryOperation, DeoptimizationRecord,
  DeoptimizationTable, find_record, is_malformed, check_recovery, add_record,
}

-- An operation of a word or a float, whose captured value, if it is one, is a value of the code.
abbrev pub IsOperation : RecoveryOperation → Type 0
IsOperation o =
    ((o.type ≡ ValueType.word) ⊎ (o.type ≡ ValueType.float64))
    × (o.source ≡ RecoverySource.captured_value → o.source_value ≢ invalid_id)

scalar :
    (type : ValueType)
    → valid_value_type type ≡ true
    → (type ≡ ValueType.word) ⊎ (type ≡ ValueType.float64)
scalar ValueType.word h = inl refl
scalar ValueType.float64 h = inr refl
scalar ValueType.i8x16 h = absurd (ground (arith, h))
scalar ValueType.i16x8 h = absurd (ground (arith, h))
scalar ValueType.i32x4 h = absurd (ground (arith, h))
scalar ValueType.i64x2 h = absurd (ground (arith, h))
scalar ValueType.f32x4 h = absurd (ground (arith, h))
scalar ValueType.f64x2 h = absurd (ground (arith, h))
scalar ValueType.mask8x16 h = absurd (ground (arith, h))
scalar ValueType.mask16x8 h = absurd (ground (arith, h))
scalar ValueType.mask32x4 h = absurd (ground (arith, h))
scalar ValueType.mask64x2 h = absurd (ground (arith, h))

formed-IsOperation : (o : RecoveryOperation) → is_malformed o ≡ false → IsOperation o
formed-IsOperation o h = (
  scalar o.type (ground (arith, h)),
  λ captured none_there. absurd (ground (arith, h, captured, eq→== none_there)),
)

-- A recovery list whose operations are well formed and fill distinct slots.
abbrev pub IsRecovery : List RecoveryOperation → Type 0
IsRecovery operations =
    All IsOperation operations × Distinct (λ (o : RecoveryOperation). o.slot) operations

-- A table of distinct sites, each with such a list.
abbrev pub IsTable : DeoptimizationTable → Type 0
IsTable records =
    All (λ (r : DeoptimizationRecord). IsRecovery r.recovery) records
    × Distinct (λ (r : DeoptimizationRecord). r.site) records

check_recovery-none :
    (checked : List RecoveryOperation) (o : RecoveryOperation) (rest : List RecoveryOperation)
    (index : ℕ)
    → check_recovery checked (o ∷ rest) index ≡ none
    → (is_malformed o ≡ false)
      × (find_if (λ candidate. candidate.slot == o.slot) checked ≡ none)
      × (check_recovery (checked ++ o ∷ []) rest (index + 1) ≡ none)
unfolding check_recovery
check_recovery-none checked o rest index h = ground (arith, h)

check_recovery-IsRecovery :
    (checked rest : List RecoveryOperation) (index : ℕ)
    → IsRecovery checked
    → check_recovery checked rest index ≡ none
    → IsRecovery (checked ++ rest)
check_recovery-IsRecovery checked [] index ok h = subst IsRecovery (sym (append-nil checked)) ok
check_recovery-IsRecovery checked (o ∷ rest) index ok h =
    let (formed, fresh, next) = check_recovery-none checked o rest index h in
    subst IsRecovery (append_assoc checked (o ∷ []) rest) (
      check_recovery-IsRecovery (checked ++ o ∷ []) rest (index + 1)
        (
          All-append IsOperation checked (o ∷ []) ok.0 (formed-IsOperation o formed, _),
          Distinct-append (λ (o : RecoveryOperation). o.slot) checked o ok.1 fresh,
        )
        next)

-- A list that is refused is refused for a reason.
check_recovery-refuses :
    (checked rest : List RecoveryOperation) (index : ℕ) (s : Status)
    → check_recovery checked rest index ≡ some s
    → is_ok s ≡ false
unfolding check_recovery
check_recovery-refuses checked [] index s h = absurd (ground (arith, h))
check_recovery-refuses checked (o ∷ rest) index s h =
    ground (arith, h, check_recovery-refuses (checked ++ o ∷ []) rest (index + 1) s)

module _ (allocated : Bool) (new : DeoptimizationRecord) (records : DeoptimizationTable) where
  add_record-cases :
      (((add_record allocated new records).0 ≡ records)
        × (is_ok (add_record allocated new records).1 ≡ false))
      ⊎ ((add_record allocated new records ≡ (records ++ new ∷ [], ok_status))
          × (find_record new.site records ≡ none)
          × (check_recovery [] new.recovery 0 ≡ none))
  unfolding add_record
  add_record-cases = elim (Option-cases (find_record new.site records)) [
    | inr (old, e) ↦ ground (arith, e)
    | inl e ↦ elim (Option-cases (check_recovery [] new.recovery 0)) [
      | inr (s, f) ↦ ground (arith, e, f, check_recovery-refuses [] new.recovery 0 s f)
      | inl f ↦ ground (arith, e, f)
    ]
  ]

  -- Adding a record keeps the table well formed, on every branch: its sites are distinct, and the
  -- operations of each record fill distinct slots, have the type of a word or a float, and do not capture the
  -- invalid value.
  pub add_record-IsTable : IsTable records → IsTable (add_record allocated new records).0
  unfolding find_record
  add_record-IsTable table = elim add_record-cases [
    | inl (same, refused) ↦ subst IsTable (sym same) table
    | inr (grown, fresh, checked) ↦
        subst (λ p. IsTable p.0) (sym grown)
          (
            All-append (λ (r : DeoptimizationRecord). IsRecovery r.recovery) records (new ∷ [])
                table.0 (check_recovery-IsRecovery [] new.recovery 0 (_, _) checked, _),
            Distinct-append (λ (r : DeoptimizationRecord). r.site) records new table.1 fresh,
          )
  ]

  -- A record that add accepts is the one found at its site.
  pub find_record-add_record :
      is_ok (add_record allocated new records).1 ≡ true
      → find_record new.site (add_record allocated new records).0 ≡ some new
  unfolding find_record
  find_record-add_record h = elim add_record-cases [
    | inl (same, refused) ↦ absurd (ground (arith, h, refused))
    | inr (grown, fresh, checked) ↦
        ap (λ p. find_record new.site p.0) grown
        ∙ find_if-append (λ candidate. candidate.site == new.site) records new fresh
            (==_refl new.site)
  ]
