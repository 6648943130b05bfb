-- ===== src/Runtime/Deoptimization/Success.antt =====
-- When DeoptimizationTable.reconstruct succeeds (src/runtime/deoptimization.cpp).
use mathlib.Core.Path.{ap₂}
use uni_jit.Common.{
  ℕ, ◌≤◌, ◌<◌, true, some, List, [], ◌∷◌, ◌≡◌, ◌≢◌, refl, ap, ◌∙◌, All, find_if-All, get_elem?,
  get_elem?-bound, length, ◌==◌, arith,
}
use uni_jit.Status.{is_ok, success}
use uni_jit.Runtime.Context.{ExitReason, ExecutionContext}
use uni_jit.Runtime.Deoptimization.{
  RecoverySource, RecoveryOperation, DeoptimizationRecord, DeoptimizationTable, RecoveredValue,
  ReconstructedFrame, find_record, is_captured, is_argument, recover_value, recover_values,
  recovered, push_value, frame_of, reconstruct_record, reconstruct, validate, validate_recovery,
  unresolved_capture_index,
}

-- An operation that the invocation can serve: a captured value is resolved and was captured.
abbrev pub IsAvailable : ExecutionContext → RecoveryOperation → Type 0
IsAvailable context o =
    is_captured o.source ≡ true
    → (o.capture_index ≢ unresolved_capture_index)
      × (o.capture_index < length context.captured_values)

module _ (site : ℕ) (arguments : (ℕ → ℕ)) (argument_count : ℕ) (context : ExecutionContext) where
  recover_value_succeeds :
      (o : RecoveryOperation)
      → (is_argument o.source ≡ true → o.argument_index < argument_count)
      → IsAvailable context o
      → (v : ℕ) × (recover_value site (some arguments) argument_count context o ≡ success v)
  recover_value_succeeds o bound available = go o.source refl
    where
      missing :
          o.source ≡ RecoverySource.captured_value
          → (v : ℕ) → get_elem? context.captured_values o.capture_index ≡ some v
          → recover_value site (some arguments) argument_count context o ≡ success v
      missing e v there =
          unfold recover_value in ground (arith, e, there, (available (ap is_captured e)).0)

      taken :
          o.source ≡ RecoverySource.argument
          → o.argument_index < argument_count
          → recover_value site (some arguments) argument_count context o
            ≡ success (arguments o.argument_index)
      taken e lt = unfold recover_value in ground (arith, e, lt)

      go :
          (s : RecoverySource)
          → o.source ≡ s
          → (v : ℕ) × (recover_value site (some arguments) argument_count context o ≡ success v)
      go RecoverySource.argument e =
          (arguments o.argument_index, taken e (bound (ap is_argument e)))
      go RecoverySource.constant e = (o.constant, unfold recover_value in ground (arith, e))
      go RecoverySource.exit_value e =
          (context.exit_value, unfold recover_value in ground (arith, e))
      go RecoverySource.captured_value e =
          let (v, there) =
            get_elem?-bound context.captured_values o.capture_index
              (available (ap is_captured e)).1 in
          (v, missing e v there)

  validate_recovery-bound :
      (parameter_count place : ℕ) (operations : List RecoveryOperation)
      → parameter_count ≤ argument_count
      → is_ok (validate_recovery parameter_count place operations) ≡ true
      → All
          (λ (o : RecoveryOperation).
            is_argument o.source ≡ true → o.argument_index < argument_count)
          operations
  unfolding validate_recovery
  validate_recovery-bound parameter_count place [] enough h = _
  validate_recovery-bound parameter_count place (o ∷ rest) enough h = (
    λ e. ground (arith, h, e, enough),
    validate_recovery-bound parameter_count place rest enough (ground (arith, h)),
  )

  recover_values_succeeds :
      (operations : List RecoveryOperation)
      → All
          (λ (o : RecoveryOperation).
            is_argument o.source ≡ true → o.argument_index < argument_count)
          operations
      → All (IsAvailable context) operations
      → (values : List RecoveredValue) × (recover_values site
            (some arguments)
            argument_count
            context
            operations
          ≡ success values)
  unfolding recover_values
  recover_values_succeeds [] bound available = ([], refl)
  recover_values_succeeds (o ∷ rest) bound available =
      let (v, here) = recover_value_succeeds o bound.0 available.0 in
      let (vs, later) = recover_values_succeeds rest bound.1 available.1 in
      (recovered o v ∷ vs, ap₂ (push_value o) here later)

validate-All :
    (parameter_count : ℕ) (records : DeoptimizationTable)
    → is_ok (validate parameter_count records) ≡ true
    → All
        (λ (r : DeoptimizationRecord).
          is_ok (validate_recovery parameter_count r.site r.recovery) ≡ true)
        records
unfolding validate
validate-All parameter_count [] h = _
validate-All parameter_count (r ∷ records) h =
    (ground (arith, h), validate-All parameter_count records (ground (arith, h)))

reconstruct-found :
    (site argument_count : ℕ) (arguments : (ℕ → ℕ)) (context : ExecutionContext)
    (records : DeoptimizationTable) (r : DeoptimizationRecord)
    → find_record site records ≡ some r
    → context.exit_site ≡ site
    → context.exit_reason ≡ ExitReason.runtime
    → reconstruct true site (some arguments) argument_count context records
      ≡ frame_of r (recover_values site (some arguments) argument_count context r.recovery)
unfolding reconstruct reconstruct_record
reconstruct-found site argument_count arguments context records r found there left =
    ground (arith, found, there, left)

-- A reconstruction succeeds at a registered site whose table validates for the function's parameters,
-- when the context left there by a runtime exit, the arguments are all there, the operations'
-- captured values are resolved and captured, and memory is found.
pub reconstruct_succeeds :
    (site parameter_count argument_count : ℕ) (arguments : (ℕ → ℕ)) (context : ExecutionContext)
    (records : DeoptimizationTable) (r : DeoptimizationRecord)
    → is_ok (validate parameter_count records) ≡ true
    → parameter_count ≤ argument_count
    → find_record site records ≡ some r
    → context.exit_site ≡ site
    → context.exit_reason ≡ ExitReason.runtime
    → All (IsAvailable context) r.recovery
    → (frame : ReconstructedFrame) × (reconstruct true site
          (some arguments)
          argument_count
          context
          records
        ≡ success frame)
unfolding find_record
reconstruct_succeeds site parameter_count argument_count arguments context records r valid enough
      found there left available =
    let checked =
      find_if-All
        (λ (r : DeoptimizationRecord).
          is_ok (validate_recovery parameter_count r.site r.recovery) ≡ true)
        (λ c. c.site == site) records r (validate-All parameter_count records valid) found in
    let (values, served) =
      recover_values_succeeds site arguments argument_count context r.recovery
        (validate_recovery-bound site arguments argument_count context parameter_count r.site
          r.recovery enough checked)
        available in
    (
      record { reason = r.reason; site = r.site; resume_offset = r.resume_offset; values = values },
      reconstruct-found site argument_count arguments context records r found there left
          ∙ ap (frame_of r) served,
    )
