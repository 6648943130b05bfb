-- ===== src/Runtime/Deoptimization/Frame.antt =====
-- The frame that DeoptimizationTable.reconstruct rebuilds (src/runtime/deoptimization.cpp).
use mathlib.Core.Path.{subst}
use uni_jit.Common.{
  ℕ, Bool, true, Option, some, List, [], ◌∷◌, ◌≡◌, ◌≢◌, refl, sym, ap, ◌∙◌, inl, inr, All, All-map,
  Distinct, IsFirst, find_if-IsFirst, get_elem?, ◌<◌, find_if, find_if-some, find_if-All, ==→eq,
  ==_refl, ◌==◌, arith, Option-cases,
}
use uni_jit.Status.{Result, success, failure}
use uni_jit.Runtime.Context.{ExecutionContext}
use uni_jit.Runtime.Deoptimization.{
  RecoverySource, unresolved_capture_index, RecoveryOperation, DeoptimizationRecord,
  DeoptimizationTable, RecoveredValue, ReconstructedFrame, find_record, recover_value,
  recover_values, recovered, push_value, frame_of, reconstruct_record, reconstruct, is_runtime,
}
use uni_jit.Runtime.Deoptimization.Table.{IsRecovery, IsTable}

-- A turn of the loop succeeds if the operation and the turns that follow do.
push_value-success :
    (o : RecoveryOperation) (r : Result ℕ) (q : Result (List RecoveredValue))
    (values : List RecoveredValue)
    → push_value o r q ≡ success values
    → (v : ℕ) × (vs : List RecoveredValue) × (r ≡ success v)
      × (q ≡ success vs)
      × (recovered o v ∷ vs ≡ values)
push_value-success o (failure s) q values h = absurd (ground (arith, h))
push_value-success o (success v) (failure s) values h = absurd (ground (arith, h))
push_value-success o (success v) (success vs) values h = (v, vs, refl, refl, ground (arith, h))

module _ (site : ℕ) (arguments : Option (ℕ → ℕ)) (argument_count : ℕ)
    (context : ExecutionContext) where
  -- The value of an operation, by its source: an argument of the call, the constant, the value of the
  -- exit, or a value that was captured at the exit.
  abbrev pub Supplied : RecoverySource → RecoveryOperation → ℕ → Type 0
  Supplied RecoverySource.argument o v =
      (values : (ℕ → ℕ)) × (arguments ≡ some values)
      × (o.argument_index < argument_count)
      × (v ≡ values o.argument_index)
  Supplied RecoverySource.constant o v = v ≡ o.constant
  Supplied RecoverySource.exit_value o v = v ≡ context.exit_value
  Supplied RecoverySource.captured_value o v =
      (o.capture_index ≢ unresolved_capture_index)
      × (get_elem? context.captured_values o.capture_index ≡ some v)

  recover_value-Supplied :
      (source : RecoverySource) (o : RecoveryOperation) (v : ℕ)
      → o.source ≡ source
      → recover_value site arguments argument_count context o ≡ success v
      → Supplied source o v
  unfolding recover_value
  recover_value-Supplied RecoverySource.argument o v from h = elim (Option-cases arguments) [
    | inl null ↦ absurd (ground (arith, from, h, null))
    | inr (values, e) ↦ (values, e, ground (arith, from, h, e), ground (arith, from, h, e))
  ]
  recover_value-Supplied RecoverySource.constant o v from h = ground (arith, from, h)
  recover_value-Supplied RecoverySource.exit_value o v from h = ground (arith, from, h)
  recover_value-Supplied RecoverySource.captured_value o v from h =
      elim (Option-cases (get_elem? context.captured_values o.capture_index)) [
        | inl missing ↦ absurd (ground (arith, from, h, missing))
        | inr (value, e) ↦ (λ same. ground (arith, from, h, same), ground (arith, from, h, e))
      ]

  -- An operation, and what the frame holds in its slot.
  abbrev Recovers : List RecoveredValue → RecoveryOperation → Type 0
  Recovers values o =
      (v : ℕ) × (recover_value site arguments argument_count context o ≡ success v)
      × (find_if (λ (c : RecoveredValue). c.slot == o.slot) values ≡ some (recovered o v))

  recover_values-Recovers :
      (operations : List RecoveryOperation) (values : List RecoveredValue)
      → Distinct (λ (o : RecoveryOperation). o.slot) operations
      → recover_values site arguments argument_count context operations ≡ success values
      → All (Recovers values) operations
  recover_values-Recovers [] values d h = _
  recover_values-Recovers (o ∷ rest) values d h =
      let (v, vs, here, later, e) =
        push_value-success o (recover_value site arguments argument_count context o)
          (recover_values site arguments argument_count context rest) values
          (unfold recover_values in h) in
      subst (λ (zs : List RecoveredValue). All (Recovers zs) (o ∷ rest)) e
        (
          (v, here, ground (arith, ==_refl o.slot)),
          behind v vs rest d.0 (recover_values-Recovers rest vs d.1 later),
        )
    where
      behind :
          (v : ℕ) (vs : List RecoveredValue) (os : List RecoveryOperation)
          → All (λ (p : RecoveryOperation). o.slot ≢ p.slot) os
          → All (Recovers vs) os
          → All (Recovers (recovered o v ∷ vs)) os
      behind v vs [] u w = _
      behind v vs (p ∷ os) u ((x, found, e), w) =
          ((x, found, ground (arith, u.0, e)), behind v vs os u.1 w)

  frame_of-success :
      (r : DeoptimizationRecord) (q : Result (List RecoveredValue)) (frame : ReconstructedFrame)
      → frame_of r q ≡ success frame
      → (values : List RecoveredValue) × (q ≡ success values)
        × (record {
          reason = r.reason;
          site = r.site;
          resume_offset = r.resume_offset;
          values = values;
        }
            ≡ frame)
  frame_of-success r (failure s) frame h = absurd (ground (arith, h))
  frame_of-success r (success values) frame h = (values, refl, ground (arith, h))

  reconstruct-success :
      (allocated : Bool) (records : DeoptimizationTable) (frame : ReconstructedFrame)
      → reconstruct allocated site arguments argument_count context records ≡ success frame
      → (r : DeoptimizationRecord) × (find_record site records ≡ some r)
        × (context.exit_site ≡ site)
        × (is_runtime context.exit_reason ≡ true)
        × (frame_of r (recover_values site arguments argument_count context r.recovery)
            ≡ success frame)
  unfolding reconstruct reconstruct_record
  reconstruct-success allocated records frame h = elim (Option-cases (find_record site records)) [
    | inl e ↦ absurd (ground (arith, e, h))
    | inr (r, e) ↦ (r, e, ground (arith, e, h), ground (arith, e, h), ground (arith, e, h))
  ]

  -- A reconstruction from a well-formed table that succeeds was asked for at the site where the
  -- context left by a runtime exit. The frame carries the site, the resume offset and the reason of the site's
  -- record. For each recovery operation of it, the first value of its slot in the frame has its type and
  -- the value that its source supplies: the argument of its index, its constant, the value of the exit, or
  -- the captured value of its index.
  pub reconstruct-Recovers :
      (allocated : Bool) (records : DeoptimizationTable) (frame : ReconstructedFrame)
      → IsTable records
      → reconstruct allocated site arguments argument_count context records ≡ success frame
      → (r : DeoptimizationRecord) × (find_record site records ≡ some r)
        × (context.exit_site ≡ site)
        × (is_runtime context.exit_reason ≡ true)
        × (frame.site ≡ site)
        × (frame.resume_offset ≡ r.resume_offset)
        × (frame.reason ≡ r.reason)
        × All
            (λ (o : RecoveryOperation).
              (w : RecoveredValue) × IsFirst (λ (c : RecoveredValue). c.slot) o.slot w frame.values
              × (w.type ≡ o.type)
              × Supplied o.source o w.value)
            r.recovery
  unfolding find_record
  reconstruct-Recovers allocated records frame table h =
      let (r, found, there, runtime, framed) = reconstruct-success allocated records frame h in
      let (values, recovered', e) =
        frame_of-success r (recover_values site arguments argument_count context r.recovery) frame
          framed in
      let held =
        recover_values-Recovers r.recovery values
          (find_if-All (λ (r : DeoptimizationRecord). IsRecovery r.recovery) (λ c. c.site == site)
            records r table.0 found).1
          recovered' in
      (
        r,
        found,
        there,
        runtime,
        sym (ap (λ (f : ReconstructedFrame). f.site) e)
            ∙ ==→eq (find_if-some (λ (c : DeoptimizationRecord). c.site == site) records r found),
        sym (ap (λ (f : ReconstructedFrame). f.resume_offset) e),
        sym (ap (λ (f : ReconstructedFrame). f.reason) e),
        All-map
            (λ o w. (
              recovered o w.0,
              find_if-IsFirst (λ (c : RecoveredValue). c.slot) o.slot (recovered o w.0) frame.values
                  (ap
                      (λ (f : ReconstructedFrame).
                        find_if (λ (c : RecoveredValue). c.slot == o.slot) f.values)
                      (sym e)
                    ∙ w.2),
              refl,
              recover_value-Supplied o.source o w.0 refl w.1,
            ))
            r.recovery held,
      )
