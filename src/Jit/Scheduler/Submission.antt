-- ===== src/Jit/Scheduler/Submission.antt =====
-- A submission keeps the counters, the limits and the table (src/jit/compilation_scheduler.cpp).
use uni_jit.Common.{
  ℕ, ◌+◌, ◌-◌, ◌≤◌, ◌<◌, ◌≡◌, refl, Bool, true, false, not, Option, none, some, List, [], ◌∷◌, ◌++◌,
  length, length-append, find_if, if◌then◌else◌, if_both, if_each, arith,
}
use uni_jit.Status.{is_ok}
use uni_jit.Jit.Scheduler.{
  CompilationPriority, Task, SharedState, find_task, is_key, queue_has_capacity, queue_of,
  with_queue,
}
use uni_jit.Jit.Scheduler.Operations.{
  CompilationRequest, CompilationSubmission, validate_request, count_rejected_capacity, new_task,
  advance_id, count_enqueued, enqueue, attempt_found, attempt, is_exhausted, screen, or_full,
  unless_screened, try_submit,
}
use uni_jit.Jit.Scheduler.Counts.{bytes_of, bytes_of-append, IsScheduler}

-- What holds of the state of either of two results.
pub either {ℓ} :
    {A : Type ℓ} (test : Bool) (x y : SharedState × A)
    → IsScheduler x.0
    → IsScheduler y.0
    → IsScheduler (if test then x else y).0
either true x y p q = p
either false x y p q = q

room :
    (bytes : ℕ) (s : SharedState)
    → queue_has_capacity bytes s ≡ true
    → (s.statistics.queued_tasks < s.options.maximum_queued_tasks)
      × (bytes ≤ s.options.maximum_queued_bytes - s.statistics.queued_bytes)
unfolding queue_has_capacity
room bytes s h = ground (arith, h)

-- A task enters the queue of its lane.
enter-IsScheduler :
    (lane : CompilationPriority) (task : Task) (longer : List Task) (s : SharedState)
    → length longer ≡ length (queue_of lane s) + 1
    → bytes_of longer ≡ bytes_of (queue_of lane s) + task.estimated_bytes
    → queue_has_capacity task.estimated_bytes s ≡ true
    → find_if (is_key task.identity task.generation) s.identities ≡ none
    → IsScheduler s
    → IsScheduler (count_enqueued task (with_queue lane longer (advance_id s)))
enter-IsScheduler CompilationPriority.background task longer s sized bytes has_room fresh h =
    let space = room task.estimated_bytes s has_room in
    (
      omega (arith, h, sized, space),
      omega (arith, h, bytes, space),
      omega (arith, h, space),
      omega (arith, h, space),
      h.4,
      h.5,
      (fresh, h.6),
    )
enter-IsScheduler CompilationPriority.normal task longer s sized bytes has_room fresh h =
    let space = room task.estimated_bytes s has_room in
    (
      omega (arith, h, sized, space),
      omega (arith, h, bytes, space),
      omega (arith, h, space),
      omega (arith, h, space),
      h.4,
      h.5,
      (fresh, h.6),
    )
enter-IsScheduler CompilationPriority.urgent task longer s sized bytes has_room fresh h =
    let space = room task.estimated_bytes s has_room in
    (
      omega (arith, h, sized, space),
      omega (arith, h, bytes, space),
      omega (arith, h, space),
      omega (arith, h, space),
      h.4,
      h.5,
      (fresh, h.6),
    )

enqueue-IsScheduler :
    (allocated : Bool) (address : ℕ) (request : CompilationRequest) (s : SharedState)
    → queue_has_capacity request.estimated_bytes s ≡ true
    → find_task request.identity request.generation s ≡ none
    → IsScheduler s
    → IsScheduler (enqueue allocated address request s).0
unfolding find_task
enqueue-IsScheduler allocated address request s has_room fresh h =
    let task = new_task address request s in
    let queue = queue_of request.priority s in
    either allocated _ _
      (enter-IsScheduler request.priority task (queue ++ task ∷ []) s
        (length-append queue (task ∷ [])) (omega (arith, bytes_of-append queue (task ∷ [])))
        has_room fresh h)
      h

attempt_found-IsScheduler :
    (allocated : Bool) (address : ℕ) (request : CompilationRequest) (s : SharedState)
    (o : Option Task)
    → find_task request.identity request.generation s ≡ o
    → IsScheduler s
    → IsScheduler (attempt_found allocated address request s o).0
attempt_found-IsScheduler allocated address request s (some existing) found h = h
attempt_found-IsScheduler allocated address request s none found h =
    either (not s.statistics.accepting) _ _ h (
      if_each {A = SharedState × Option CompilationSubmission} (λ r. IsScheduler r.0)
        (queue_has_capacity request.estimated_bytes s) _ _
        (λ has_room. enqueue-IsScheduler allocated address request s has_room found h) (λ full. h))

pub attempt-IsScheduler :
    (allocated : Bool) (address : ℕ) (request : CompilationRequest) (s : SharedState)
    → IsScheduler s
    → IsScheduler (attempt allocated address request s).0
unfolding attempt
attempt-IsScheduler allocated address request s h =
    attempt_found-IsScheduler allocated address request s
      (find_task request.identity request.generation s) refl h

or_full-IsScheduler :
    (r : SharedState × Option CompilationSubmission) → IsScheduler r.0 → IsScheduler (or_full r).0
or_full-IsScheduler (s, some submission) h = h
or_full-IsScheduler (s, none) h = h

unless_screened-IsScheduler :
    (r : SharedState × Option CompilationSubmission)
    (next : SharedState → SharedState × CompilationSubmission)
    → IsScheduler r.0
    → ((s : SharedState) → IsScheduler s → IsScheduler (next s).0)
    → IsScheduler (unless_screened r next).0
unless_screened-IsScheduler (s, some submission) next h keeps = h
unless_screened-IsScheduler (s, none) next h keeps = keeps s h

screen-IsScheduler :
    (request : CompilationRequest) (s : SharedState)
    → IsScheduler s
    → IsScheduler (screen request s).0
unfolding screen
screen-IsScheduler request s h = either (is_ok (validate_request request s.options)) _ _ h (
    if_both IsScheduler (is_exhausted (validate_request request s.options).code)
      (count_rejected_capacity s) s h h)

pub try_submit-IsScheduler :
    (allocated : Bool) (address : ℕ) (request : CompilationRequest) (s : SharedState)
    → IsScheduler s
    → IsScheduler (try_submit allocated address request s).0
unfolding try_submit
try_submit-IsScheduler allocated address request s h =
    unless_screened-IsScheduler (screen request s)
      (λ t. or_full (attempt allocated address request t)) (screen-IsScheduler request s h)
      (λ t k.
        or_full-IsScheduler (attempt allocated address request t)
          (attempt-IsScheduler allocated address request t k))
