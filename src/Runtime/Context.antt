-- ===== src/Runtime/Context.antt =====
-- include/unijit/runtime/execution_context.h, src/runtime/execution_context.cpp and
-- include/unijit/runtime/memory_region.h: the state that an invocation shares with its host.
-- A pointer to an array is the function from an index to the element there; null is none.
use uni_jit.Common.{
  ℕ, zero, suc, ◌+◌, ◌-◌, ◌%◌, ◌^◌, bit_and, bit_or, Bool, not, ◌&&◌, Option, none, some, List, [],
  ltb, ◌==◌, if◌then◌else◌,
}
use uni_jit.Status.{StatusCode, Status, status, ok_status}

pub data ExitReason : Type 0 where
  no_exit safepoint runtime : ExitReason

-- `data` is an address, and 0 is the null pointer.
pub record MemoryRegion : Type 0 where
  pub base : ℕ
  pub size : ℕ
  pub writable : Bool

-- Bit 0 of `interrupt_requested` is kInterruptRequested, bit 1 is kDeoptimizationWakeup.
pub record ExecutionContext : Type 0 where
  pub interrupt_requested : ℕ
  pub exit_reason : ExitReason
  pub exit_site : ℕ
  pub exit_value : ℕ
  pub captured_values : List ℕ
  pub safepoint_polls : ℕ
  pub memory_regions : Option (ℕ → MemoryRegion)
  pub memory_region_count : ℕ

unfoldable pub request_interrupt : ExecutionContext → ExecutionContext
request_interrupt c = record c { interrupt_requested = bit_or c.interrupt_requested 1 }

unfoldable pub clear_interrupt : ExecutionContext → ExecutionContext
clear_interrupt c = record c {
  interrupt_requested = bit_and c.interrupt_requested (2 ^ 64 - 1 - 1);
}

unfoldable pub is_interrupt_requested : ExecutionContext → Bool
is_interrupt_requested c = not (bit_and c.interrupt_requested 1 == 0)

unfoldable pub exit_poll_requested : ExecutionContext → Bool
exit_poll_requested c = not (c.interrupt_requested == 0)

unfoldable pub request_deoptimization_wakeup : ExecutionContext → ExecutionContext
request_deoptimization_wakeup c = record c { interrupt_requested = bit_or c.interrupt_requested 2 }

unfoldable pub clear_deoptimization_wakeup : ExecutionContext → ExecutionContext
clear_deoptimization_wakeup c = record c {
  interrupt_requested = bit_and c.interrupt_requested (2 ^ 64 - 1 - 2);
}

unfoldable pub clear_exit : ExecutionContext → ExecutionContext
clear_exit c = record c {
  exit_reason = ExitReason.no_exit;
  exit_site = 0;
  exit_value = 0;
  captured_values = [];
  safepoint_polls = 0;
}

unfoldable pub record_exit : ExitReason → ℕ → ℕ → ExecutionContext → ExecutionContext
record_exit reason site value c = record c {
  exit_value = value;
  exit_site = site;
  exit_reason = reason;
}

unfoldable pub record_safepoint_poll : ExecutionContext → ExecutionContext
record_safepoint_poll c = record c { safepoint_polls = (c.safepoint_polls + 1) % 2 ^ 64 }

-- The loop of bind_memory_regions over `rounds` regions from `index` on.
unfoldable pub check_regions : (ℕ → MemoryRegion) → ℕ → ℕ → Status
check_regions regions index zero = ok_status
check_regions regions index (suc rounds) =
    let rest = check_regions regions (index + 1) rounds in
    if not ((regions index).size == 0) && (regions index).base == 0
    then status StatusCode.invalid_argument index
    else if ltb (2 ^ 64 - 1 - (regions index).base) (regions index).size
    then status StatusCode.invalid_argument index
    else rest

abbrev pub bind_checked :
    Option (ℕ → MemoryRegion) → ℕ → ExecutionContext → Status → ExecutionContext × Status
bind_checked regions count c s = elim s.code [
  | StatusCode.ok ↦ (record c { memory_regions = regions; memory_region_count = count }, s)
  | _ ↦ (c, s)
]

unfoldable pub bind_memory_regions :
    Option (ℕ → MemoryRegion) → ℕ → ExecutionContext → ExecutionContext × Status
bind_memory_regions none count c =
    if count == 0
    then (record c { memory_regions = none; memory_region_count = count }, ok_status)
    else (c, status StatusCode.invalid_argument 0)
bind_memory_regions (some regions) count c =
    bind_checked (some regions) count c (check_regions regions 0 count)

unfoldable pub clear_memory_regions : ExecutionContext → ExecutionContext
clear_memory_regions c = record c { memory_regions = none; memory_region_count = 0 }
