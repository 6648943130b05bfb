-- ===== src/Jit/Hotness.antt =====
-- HotnessProfile of include/unijit/jit/tiering.h and src/jit/tiering.cpp. The counters are atomic, and
-- each method is one step. A profile that was moved from is not modelled.
use uni_jit.Common.{
  ◌⊎◌, ℕ, ◌+◌, ◌-◌, ◌^◌, ◌≤◌, ◌<◌, ◌≡◌, Bool, true, false, not, ◌&&◌, ◌||◌, ltb, leb, if◌then◌else◌,
  ◌==◌, arith,
}
use uni_jit.Status.{StatusCode, Status, status, ok_status, is_ok}

abbrev pub maximum : ℕ
maximum = 2 ^ 64 - 1

unfoldable pub saturating_add : ℕ → ℕ → ℕ
saturating_add current increment =
    if ltb (maximum - current) increment then maximum else current + increment

unfoldable pub delayed_threshold : ℕ → ℕ → ℕ
delayed_threshold current delay = if ltb (maximum - current) delay then maximum else current + delay

unfoldable pub next_generation : ℕ → ℕ
next_generation current = if current == maximum then 1 else current + 1

pub record TieringThresholds : Type 0 where
  pub invocations : ℕ
  pub backedges : ℕ
  pub retry_delay : ℕ

pub record Profile : Type 0 where
  pub thresholds : TieringThresholds
  pub invocations : ℕ
  pub backedges : ℕ
  pub next_invocation : ℕ
  pub next_backedge : ℕ
  pub compilation_attempts : ℕ
  pub successful_compilations : ℕ
  pub failed_compilations : ℕ
  pub compilation_claimed : Bool
  pub optimized_active : Bool

abbrev pub new_profile : TieringThresholds → Profile
new_profile configured = record {
  thresholds = configured;
  invocations = 0;
  backedges = 0;
  next_invocation = configured.invocations;
  next_backedge = configured.backedges;
  compilation_attempts = 0;
  successful_compilations = 0;
  failed_compilations = 0;
  compilation_claimed = false;
  optimized_active = false;
}

unfoldable pub is_hot : Profile → Bool
is_hot p =
    not p.optimized_active
    && (leb p.next_invocation p.invocations || leb p.next_backedge p.backedges)

unfoldable pub rearm : Profile → Profile
rearm p = record p {
  next_invocation = delayed_threshold p.invocations p.thresholds.retry_delay;
  next_backedge = delayed_threshold p.backedges p.thresholds.retry_delay;
}

unfoldable pub record_invocation : Profile → Profile
record_invocation p = record p { invocations = saturating_add p.invocations 1 }

unfoldable pub record_backedges : ℕ → Profile → Profile
record_backedges count p = record p { backedges = saturating_add p.backedges count }

unfoldable pub try_begin_optimization : Profile → Profile × Bool
try_begin_optimization p =
    if not (is_hot p) then (p, false) else if p.compilation_claimed then (p, false) else (
      record p {
        compilation_claimed = true;
        compilation_attempts = saturating_add p.compilation_attempts 1;
      },
      true,
    )

unfoldable pub report_optimization_failure : Profile → Profile × Status
report_optimization_failure p =
    if not p.compilation_claimed then (p, status StatusCode.invalid_argument 0) else (
      rearm (record p {
        compilation_claimed = false;
        failed_compilations = saturating_add p.failed_compilations 1;
      }),
      ok_status,
    )

unfoldable pub reset_for_baseline : Profile → Profile
reset_for_baseline p = record p {
  invocations = 0;
  backedges = 0;
  next_invocation = p.thresholds.invocations;
  next_backedge = p.thresholds.backedges;
  compilation_claimed = false;
  optimized_active = false;
}

unfoldable pub mark_optimized : Profile → Profile
mark_optimized p = record p {
  compilation_claimed = false;
  successful_compilations =
      if p.compilation_claimed
      then saturating_add p.successful_compilations 1
      else p.successful_compilations;
  optimized_active = true;
}

unfoldable pub mark_deoptimized : Profile → Profile
mark_deoptimized p = rearm (record p { optimized_active = false; compilation_claimed = false })

pub record HotnessStats : Type 0 where
  pub invocations : ℕ
  pub backedges : ℕ
  pub compilation_attempts : ℕ
  pub successful_compilations : ℕ
  pub failed_compilations : ℕ
  pub compilation_claimed : Bool
  pub optimized_active : Bool
  pub hot : Bool

unfoldable pub stats : Profile → HotnessStats
stats p = record {
  invocations = p.invocations;
  backedges = p.backedges;
  compilation_attempts = p.compilation_attempts;
  successful_compilations = p.successful_compilations;
  failed_compilations = p.failed_compilations;
  compilation_claimed = p.compilation_claimed;
  optimized_active = p.optimized_active;
  hot = is_hot p;
}

-- A counter grows, and stops at the largest word.
pub saturating_add-bounds :
    (current increment : ℕ)
    → current ≤ maximum
    → (saturating_add current increment ≤ maximum)
      × (current ≤ saturating_add current increment)
      × (current + increment ≤ maximum → saturating_add current increment ≡ current + increment)
unfolding saturating_add
saturating_add-bounds current increment h = ground arith

-- A generation is never 0, and differs from the one before it.
pub next_generation-fresh :
    (g : ℕ)
    → g ≤ maximum
    → (next_generation g ≤ maximum) × (1 ≤ next_generation g) × (next_generation g ≡ g → ⊥)
unfolding next_generation
next_generation-fresh g h = ground arith

-- One claim at a time: a claim is granted only where no optimized code is active, the invocations or the
-- backedges have reached their threshold, and nothing is claimed. A second try changes nothing and is not
-- granted, and a report of failure after the claim is accepted.
pub try_begin_optimization-claims :
    (p : Profile)
    → (try_begin_optimization p).1 ≡ true
    → (p.optimized_active ≡ false)
      × ((p.next_invocation ≤ p.invocations) ⊎ (p.next_backedge ≤ p.backedges))
      × (is_hot p ≡ true)
      × (p.compilation_claimed ≡ false)
      × (try_begin_optimization (try_begin_optimization p).0
          ≡ ((try_begin_optimization p).0, false))
      × (is_ok (report_optimization_failure (try_begin_optimization p).0).1 ≡ true)
unfolding try_begin_optimization report_optimization_failure is_hot
try_begin_optimization-claims p h = ground arith

pub report_optimization_failure-cools :
    (p : Profile)
    → 1 ≤ p.thresholds.retry_delay
    → p.invocations < maximum
    → p.backedges < maximum
    → is_ok (report_optimization_failure p).1 ≡ true
    → is_hot (report_optimization_failure p).0 ≡ false
unfolding report_optimization_failure rearm is_hot delayed_threshold
report_optimization_failure-cools p delay i b h = ground arith
