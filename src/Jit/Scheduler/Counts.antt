-- ===== src/Jit/Scheduler/Counts.antt =====
-- The counters, the limits and the table of the compilation scheduler
-- (src/jit/compilation_scheduler.cpp).
use uni_jit.Common.{
  ℕ, ◌+◌, ◌^◌, ◌≤◌, ◌<◌, ◌≡◌, refl, ap, Option, none, some, List, [], ◌∷◌, ◌++◌, length, find_if,
  ◌==◌, if_both, Text, arith,
}
use uni_jit.Jit.Scheduler.{
  CompilationPriority, Task, SharedState, is_key, erase_task, queue_of, with_queue, count_leave,
  take_front, with_bursts, take_chosen, choice_of, pop_task,
}

abbrev pub bytes_of : List Task → ℕ
bytes_of [] = 0
bytes_of (task ∷ queue) = task.estimated_bytes + bytes_of queue

-- No two tasks are of one identity and generation.
abbrev pub TasksApart : List Task → Type 0
TasksApart [] = Unit
TasksApart (task ∷ tasks) =
    (find_if (is_key task.identity task.generation) tasks ≡ none) × TasksApart tasks

-- The counters are the queues', the limits on both are kept, and the table has each identity and
-- generation once.
abbrev pub IsScheduler : SharedState → Type 0
IsScheduler s =
    (s.statistics.queued_tasks
      ≡ length s.background_queue + length s.normal_queue + length s.urgent_queue)
    × (s.statistics.queued_bytes
        ≡ bytes_of s.background_queue + bytes_of s.normal_queue + bytes_of s.urgent_queue)
    × (s.statistics.queued_tasks ≤ s.options.maximum_queued_tasks)
    × (s.statistics.queued_bytes ≤ s.options.maximum_queued_bytes)
    × (s.options.maximum_queued_tasks < 2 ^ 64)
    × (s.options.maximum_queued_bytes < 2 ^ 64)
    × TasksApart s.identities

find-erase_task :
    (identity : Text) (generation : ℕ) (task : Task) (tasks : List Task)
    → find_if (is_key identity generation) tasks ≡ none
    → find_if (is_key identity generation) (erase_task task tasks) ≡ none
find-erase_task identity generation task [] h = refl
find-erase_task identity generation task (t ∷ tasks) h =
    ground (arith, h, find-erase_task identity generation task tasks)

pub erase_task-TasksApart :
    (task : Task) (tasks : List Task) → TasksApart tasks → TasksApart (erase_task task tasks)
erase_task-TasksApart task [] h = h
erase_task-TasksApart task (t ∷ tasks) h =
    if_both TasksApart (is_key task.identity task.generation t) _ _
      (if_both TasksApart (t.address == task.address) tasks (t ∷ tasks) h.1 h)
      (find-erase_task t.identity t.generation task tasks h.0, erase_task-TasksApart task tasks h.1)

-- A task leaves its queue.
pub leave-IsScheduler :
    (lane : CompilationPriority) (task : Task) (rest : List Task) (s : SharedState)
    → length rest + 1 ≡ length (queue_of lane s)
    → bytes_of rest + task.estimated_bytes ≡ bytes_of (queue_of lane s)
    → IsScheduler s
    → IsScheduler (count_leave task (with_queue lane rest s))
leave-IsScheduler CompilationPriority.background task rest s sized bytes h = (
  omega (arith, h, sized),
  omega (arith, h, bytes),
  omega (arith, h, sized),
  omega (arith, h, bytes),
  h.4,
  h.5,
  h.6,
)
leave-IsScheduler CompilationPriority.normal task rest s sized bytes h = (
  omega (arith, h, sized),
  omega (arith, h, bytes),
  omega (arith, h, sized),
  omega (arith, h, bytes),
  h.4,
  h.5,
  h.6,
)
leave-IsScheduler CompilationPriority.urgent task rest s sized bytes h = (
  omega (arith, h, sized),
  omega (arith, h, bytes),
  omega (arith, h, sized),
  omega (arith, h, bytes),
  h.4,
  h.5,
  h.6,
)

pub bytes_of-append : (xs ys : List Task) → bytes_of (xs ++ ys) ≡ bytes_of xs + bytes_of ys
bytes_of-append [] ys = omega arith
bytes_of-append (x ∷ xs) ys = omega (arith, bytes_of-append xs ys)

pub take_front-IsScheduler :
    (lane : CompilationPriority) (queue : List Task) (s : SharedState)
    → queue_of lane s ≡ queue
    → IsScheduler s
    → IsScheduler (take_front lane queue s).0
take_front-IsScheduler lane [] s here h = h
take_front-IsScheduler lane (task ∷ queue) s here h =
    leave-IsScheduler lane task queue s (omega (arith, ap length here))
      (omega (arith, ap bytes_of here)) h

take_chosen-IsScheduler :
    (lane : Option CompilationPriority) (s : SharedState)
    → IsScheduler s
    → IsScheduler (take_chosen lane s).0
take_chosen-IsScheduler none s h = h
take_chosen-IsScheduler (some lane) s h = take_front-IsScheduler lane (queue_of lane s) s refl h

pub pop_task-IsScheduler : (s : SharedState) → IsScheduler s → IsScheduler (pop_task s).0
unfolding pop_task
pop_task-IsScheduler s h = take_chosen-IsScheduler (choice_of s).0 (with_bursts (choice_of s) s) h
