-- ===== src/Jit/Handle.antt =====
-- CodeHandle of include/unijit/jit/code_cache.h and src/jit/code_cache.cpp, and what it reads of
-- CompiledFunction (include/unijit/jit/compiler.h). Running the machine code of a function is a
-- parameter, `run`, with the arguments inside it and the context in its world.
use uni_jit.Common.{ℕ, Bool, true, false, Option, none, some, List, length, get_elem?}
use uni_jit.Status.{StatusCode, Status, status}
use uni_jit.Ir.Opcode.{ValueType}
use uni_jit.Jit.Target.{TargetProfile}
use uni_jit.Runtime.Assumption.{Assumption, Store, AssumptionSet, first_invalid}
use uni_jit.Runtime.Deoptimization.{DeoptimizationRecord, DeoptimizationTable, find_record}

-- `entry` is the address of the machine code.
pub record CompiledFunction : Type 0 where
  pub parameter_types : List ValueType
  pub return_type : ValueType
  pub assumptions : AssumptionSet
  pub deoptimization_table : DeoptimizationTable
  pub target_profile : TargetProfile
  pub executable_mapping_size : ℕ
  pub entry : ℕ

pub record CodeHandle : Type 0 where
  pub function : Option CompiledFunction
  pub generation : ℕ

abbrev pub invalid_handle : CodeHandle
invalid_handle = record { function = none; generation = 0 }

-- A member of the function, or what stands for it where there is none.
abbrev pub of_function {ℓ} : {A : Type ℓ} → A → (CompiledFunction → A) → Option CompiledFunction → A
of_function missing member none = missing
of_function missing member (some f) = member f

abbrev pub is_valid : CodeHandle → Bool
is_valid handle = of_function false (λ f. true) handle.function

abbrev pub or_word : Option ValueType → ValueType
or_word none = ValueType.word
or_word (some t) = t

unfoldable pub parameter_count : CodeHandle → ℕ
parameter_count handle = of_function 0 (λ f. length f.parameter_types) handle.function

unfoldable pub parameter_type : ℕ → CodeHandle → ValueType
parameter_type index handle =
    of_function ValueType.word (λ f. or_word (get_elem? f.parameter_types index)) handle.function

unfoldable pub return_type : CodeHandle → ValueType
return_type handle = of_function ValueType.word (λ f. f.return_type) handle.function

unfoldable pub assumption_count : CodeHandle → ℕ
assumption_count handle = of_function 0 (λ f. length f.assumptions) handle.function

abbrev pub is_missing {ℓ} : {A : Type ℓ} → Option A → Bool
is_missing none = true
is_missing (some x) = false

unfoldable pub assumptions_valid : Store Assumption → CodeHandle → Bool
assumptions_valid store handle =
    of_function false (λ f. is_missing (first_invalid store f.assumptions)) handle.function

unfoldable pub deoptimization_record : ℕ → CodeHandle → Option DeoptimizationRecord
deoptimization_record site handle =
    of_function none (λ f. find_record site f.deoptimization_table) handle.function

pub record EvaluationResult : Type 0 where
  pub status : Status
  pub value : ℕ

abbrev pub invalid_result : EvaluationResult
invalid_result = record { status = status StatusCode.invalid_argument 0; value = 0 }

unfoldable pub invoke {ℓ} :
    {World : Type ℓ}
    → (CompiledFunction → World → EvaluationResult × World)
    → CodeHandle
    → World
    → EvaluationResult × World
invoke run handle world = of_function (invalid_result, world) (λ f. run f world) handle.function
