-- ===== src/Tests/Schedules.antt =====
-- The compilation scheduler (src/jit/compilation_scheduler.cpp) with room for two tasks.
use uni_jit.Common.{◌≡◌, refl, Bool, true, false, some, List, [], ◌∷◌, ◌++◌, arith}
use uni_jit.Jit.Scheduler.{
  CompilationPriority, CompilationSchedulerOptions, SharedState, new_scheduler, find_task,
  choose_lane, queue_has_capacity, pop_task,
}
use uni_jit.Jit.Scheduler.Operations.{
  CompilationRequest, count_deduplicated, new_task, attempt, try_submit,
}
use uni_jit.Jit.Scheduler.Counts.{IsScheduler}
use uni_jit.Jit.Scheduler.Lanes.{lanes_served, ServedWithin, choose_lane_serves}
use uni_jit.Jit.Scheduler.History.{Step, Reachable, Reachable-IsScheduler}
use uni_jit.Jit.Scheduler.Standing.{Undisturbed}
use uni_jit.Jit.Scheduler.Deduplication.{ticket_for, attempt_deduplicates}

abbrev two_tasks : CompilationSchedulerOptions
two_tasks = record { maximum_queued_tasks = 2; maximum_queued_bytes = 100 }

abbrev hot_loop : CompilationRequest
hot_loop = record {
  identity = 5 ∷ [];
  generation = 1;
  estimated_bytes = 40;
  priority = CompilationPriority.urgent;
  has_job = true;
}

abbrev idle : SharedState
idle = new_scheduler two_tasks

abbrev started : SharedState
started = (pop_task (try_submit true 10 hot_loop idle).0).0

history_example : IsScheduler started
history_example =
    Reachable-IsScheduler (omega arith) (omega arith)
      (Reachable.then (Reachable.then Reachable.start (Step.submits true 10 hot_loop)) Step.pops)

-- Tasks in all lanes, at each of 15 pops.
abbrev busy : List (Bool × Bool)
busy =
    let five = (true, true) ∷ (true, true) ∷ (true, true) ∷ (true, true) ∷ (true, true) ∷ [] in
    five ++ five ++ five

lanes_example :
    ServedWithin 15 CompilationPriority.background
      (lanes_served (λ o u n. choose_lane o.0 o.1 true u n) busy 0 0)
    × ServedWithin 10 CompilationPriority.normal
        (lanes_served (λ o u n. choose_lane o.0 true o.1 u n) busy 0 0)
    × ServedWithin 2 CompilationPriority.urgent
        (lanes_served (λ o u n. choose_lane true o.0 o.1 u n) busy 0 0)
lanes_example = choose_lane_serves busy 0 0 (omega arith)

-- The same identity in a later generation.
abbrev next_loop : CompilationRequest
next_loop = record hot_loop { generation = 2 }

-- After the first request, another is queued and the first is taken from its queue.
abbrev running : SharedState
running = (pop_task (try_submit true 12 next_loop (attempt true 10 hot_loop idle).0).0).0

deduplicates_example :
    (attempt false 11 hot_loop running
      ≡ (count_deduplicated running, some (ticket_for false (new_task 10 hot_loop idle))))
    × (some (new_task 10 hot_loop idle) ≡ some (new_task 10 hot_loop idle))
unfolding attempt new_scheduler queue_has_capacity find_task
deduplicates_example =
    attempt_deduplicates true false 10 11 hot_loop hot_loop idle running
      (ticket_for true (new_task 10 hot_loop idle)) refl refl
      (Undisturbed.pops (Undisturbed.submits true 12 next_loop Undisturbed.start)) refl refl
