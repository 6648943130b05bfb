-- ===== src/Status.antt =====
-- include/unijit/status.h: the status codes, and results that carry a value or a status. The text
-- of a message is not modelled; a status keeps its code and its location.
use uni_jit.Common.{ℕ, Bool, true, false}

pub data StatusCode : Type 0 where
  ok invalid_argument invalid_ir unsupported_architecture resource_exhausted : StatusCode
  code_generation_failed memory_protection_failed execution_interrupted runtime_exit : StatusCode
  cancelled deadline_exceeded unavailable : StatusCode

pub record Status : Type 0 where
  pub code : StatusCode
  pub location : ℕ

abbrev pub status : StatusCode → ℕ → Status
status code location = record { code = code; location = location }

abbrev pub ok_status : Status
ok_status = status StatusCode.ok 0

abbrev pub is_ok : Status → Bool
is_ok s = elim s.code [ StatusCode.ok ↦ true | _ ↦ false ]

-- The source's pairs of a status and a value, whose value counts where the status is ok.
pub data Result {ℓ} (A : Type ℓ) : Type ℓ where
  success : A → Result A
  failure : Status → Result A
