-- ===== src/Jit/Scheduler/History.antt =====
-- The histories of a compilation scheduler (src/jit/compilation_scheduler.cpp): submissions, with waits
-- and timeouts, pops, completions, cancellations and shutdowns in any order.
use mathlib.Core.Path.{subst}
use uni_jit.Common.{
  ℕ, ◌+◌, ◌^◌, ◌<◌, ◌≡◌, refl, sym, ◌∙◌, Bool, not, Option, none, some, List, [], ◌∷◌, length, ◌==◌,
  shrink, ◌||◌, arith, find_if-some, ==→eq,
}
use uni_jit.Status.{Status}
use uni_jit.Jit.Scheduler.{
  CompilationPriority, CompilationTaskState, Task, CompilationSchedulerOptions,
  CompilationSchedulerStats, SharedState, new_scheduler, queue_of, pop_task, terminal,
}
use uni_jit.Jit.Scheduler.Operations.{
  CompilationRequest, SchedulerShutdownMode, count_wait, count_timeout, attempt, try_submit,
  final_state, count_final, finish_task, find_address, erase_address, is_queued, is_cancelled,
  request_cancellation, cancel_queued, cancel_task, request_all, cancel_lane, close, shutdown,
}
use uni_jit.Jit.Scheduler.Counts.{
  bytes_of, TasksApart, IsScheduler, erase_task-TasksApart, leave-IsScheduler, pop_task-IsScheduler,
}
use uni_jit.Jit.Scheduler.Submission.{either, attempt-IsScheduler, try_submit-IsScheduler}

-- The end of a job changes neither the queues nor their counters.
count_final-queued :
    (final : CompilationTaskState) (t : CompilationSchedulerStats)
    → ((count_final final t).queued_tasks ≡ t.queued_tasks)
      × ((count_final final t).queued_bytes ≡ t.queued_bytes)
count_final-queued CompilationTaskState.queued t = (refl, refl)
count_final-queued CompilationTaskState.running t = (refl, refl)
count_final-queued CompilationTaskState.succeeded t = (refl, refl)
count_final-queued CompilationTaskState.failed t = (refl, refl)
count_final-queued CompilationTaskState.cancelled t = (refl, refl)

finish_task-IsScheduler :
    (task : Task) (outcome : Status) (s : SharedState)
    → IsScheduler s
    → IsScheduler (finish_task task outcome s)
unfolding finish_task
finish_task-IsScheduler task outcome s h =
    let cancelled = (s.progress task.address).cancellation_requested || is_cancelled outcome.code in
    let kept =
      count_final-queued (final_state cancelled outcome)
        (record s.statistics { active_workers = shrink s.statistics.active_workers 1 }) in
    (
      kept.0 ∙ h.0,
      kept.1 ∙ h.1,
      omega (arith, kept.0, h),
      omega (arith, kept.1, h),
      h.4,
      h.5,
      erase_task-TasksApart task s.identities h.6,
    )

erase_found-sizes :
    (address : ℕ) (queue : List Task) (task : Task)
    → find_address address queue ≡ some task
    → (length (erase_address address queue) + 1 ≡ length queue)
      × (bytes_of (erase_address address queue) + task.estimated_bytes ≡ bytes_of queue)
erase_found-sizes address [] task found = absurd (ground (arith, found))
erase_found-sizes address (t ∷ queue) task found =
    grind (arith, found, erase_found-sizes address queue task)

erase_address-sizes :
    (address : ℕ) (queue : List Task) (task : Task)
    → find_address address queue ≡ some task
    → (length (erase_address task.address queue) + 1 ≡ length queue)
      × (bytes_of (erase_address task.address queue) + task.estimated_bytes ≡ bytes_of queue)
erase_address-sizes address queue task found =
    subst
      (λ a.
        (length (erase_address a queue) + 1 ≡ length queue)
        × (bytes_of (erase_address a queue) + task.estimated_bytes ≡ bytes_of queue))
      (sym (==→eq (find_if-some (λ t. t.address == address) queue task found)))
      (erase_found-sizes address queue task found)

cancel_queued-IsScheduler :
    (lane : CompilationPriority) (o : Option Task) (address : ℕ) (s : SharedState)
    → find_address address (queue_of lane s) ≡ o
    → IsScheduler s
    → IsScheduler (cancel_queued lane o s)
cancel_queued-IsScheduler lane none address s found h = h
cancel_queued-IsScheduler lane (some task) address s found h =
    let sizes = erase_address-sizes address (queue_of lane s) task found in
    let left =
      leave-IsScheduler lane task (erase_address task.address (queue_of lane s)) s sizes.0 sizes.1
        h in
    (left.0, left.1, left.2, left.3, left.4, left.5, erase_task-TasksApart task _ left.6)

cancel_task-IsScheduler :
    (task : Task) (s : SharedState) → IsScheduler s → IsScheduler (cancel_task task s).0
unfolding cancel_task
cancel_task-IsScheduler task s h =
    let p = s.progress task.address in
    let requested = request_cancellation task.address s in
    either (terminal p.state) _ _ h (
      either (not (is_queued p.state)) _ _ h
        (cancel_queued-IsScheduler task.priority _ task.address requested refl h))

request_all-same :
    (tasks : List Task) (s : SharedState)
    → ((request_all tasks s).options ≡ s.options)
      × ((request_all tasks s).identities ≡ s.identities)
request_all-same [] s = (refl, refl)
request_all-same (task ∷ tasks) s = request_all-same tasks (request_cancellation task.address s)

cancel_lane-keeps :
    (queue : List Task) (s : SharedState)
    → TasksApart s.identities
    → ((cancel_lane queue s).options ≡ s.options) × TasksApart (cancel_lane queue s).identities
cancel_lane-keeps [] s h = (refl, h)
cancel_lane-keeps (task ∷ queue) s h =
    cancel_lane-keeps queue _ (erase_task-TasksApart task s.identities h)

shutdown-IsScheduler :
    (mode : SchedulerShutdownMode) (s : SharedState) → IsScheduler s → IsScheduler (shutdown mode s)
unfolding shutdown
shutdown-IsScheduler SchedulerShutdownMode.drain s h = h
shutdown-IsScheduler SchedulerShutdownMode.cancel s h =
    let all = request_all s.identities (close s) in
    let requested = request_all-same s.identities (close s) in
    let first = cancel_lane-keeps s.background_queue all (subst TasksApart (sym requested.1) h.6) in
    let background_done = cancel_lane s.background_queue all in
    let second = cancel_lane-keeps s.normal_queue background_done first.1 in
    let normal_done = cancel_lane s.normal_queue background_done in
    let third = cancel_lane-keeps s.urgent_queue normal_done second.1 in
    let options = third.0 ∙ second.0 ∙ first.0 ∙ requested.0 in
    (
      refl,
      refl,
      omega arith,
      omega arith,
      subst (λ o. o.maximum_queued_tasks < 2 ^ 64) (sym options) h.4,
      subst (λ o. o.maximum_queued_bytes < 2 ^ 64) (sym options) h.5,
      third.1,
    )

-- `address` is that of the task which a submission makes; the outcome of a job is any status.
pub data Step : SharedState → SharedState → Type 0 where
  submits :
      (allocated : Bool) (address : ℕ) (request : CompilationRequest) {s : SharedState}
      → Step s (try_submit allocated address request s).0
  attempts :
      (allocated : Bool) (address : ℕ) (request : CompilationRequest) {s : SharedState}
      → Step s (attempt allocated address request s).0
  waits : {s : SharedState} → Step s (count_wait s)
  times_out : {s : SharedState} → Step s (count_timeout s)
  pops : {s : SharedState} → Step s (pop_task s).0
  finishes :
      (task : Task) (outcome : Status) {s : SharedState} → Step s (finish_task task outcome s)
  cancels : (task : Task) {s : SharedState} → Step s (cancel_task task s).0
  shuts_down : (mode : SchedulerShutdownMode) {s : SharedState} → Step s (shutdown mode s)

pub data Reachable (options : CompilationSchedulerOptions) : SharedState → Type 0 where
  start : Reachable options (new_scheduler options)
  then : {s t : SharedState} → Reachable options s → Step s t → Reachable options t

Step-IsScheduler : {s t : SharedState} → Step s t → IsScheduler s → IsScheduler t
Step-IsScheduler {s} (Step.submits allocated address request) h =
    try_submit-IsScheduler allocated address request s h
Step-IsScheduler {s} (Step.attempts allocated address request) h =
    attempt-IsScheduler allocated address request s h
Step-IsScheduler {s} Step.waits h = h
Step-IsScheduler {s} Step.times_out h = h
Step-IsScheduler {s} Step.pops h = pop_task-IsScheduler s h
Step-IsScheduler {s} (Step.finishes task outcome) h = finish_task-IsScheduler task outcome s h
Step-IsScheduler {s} (Step.cancels task) h = cancel_task-IsScheduler task s h
Step-IsScheduler {s} (Step.shuts_down mode) h = shutdown-IsScheduler mode s h

-- Whatever the threads do, in whatever order: the counters of queued tasks and bytes are those of the three
-- queues, the limits on both are kept, and the table has no identity and generation twice. The two limits
-- are 64-bit numbers.
pub Reachable-IsScheduler :
    {options : CompilationSchedulerOptions} {s : SharedState}
    → options.maximum_queued_tasks < 2 ^ 64
    → options.maximum_queued_bytes < 2 ^ 64
    → Reachable options s
    → IsScheduler s
unfolding new_scheduler
Reachable-IsScheduler tasks bytes Reachable.start =
    (refl, refl, omega arith, omega arith, tasks, bytes, _)
Reachable-IsScheduler tasks bytes (Reachable.then before step) =
    Step-IsScheduler step (Reachable-IsScheduler tasks bytes before)
