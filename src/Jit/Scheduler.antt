-- ===== src/Jit/Scheduler.antt =====
-- include/unijit/jit/compilation_scheduler.h and src/jit/compilation_scheduler.cpp: the queues of the
-- compilation scheduler. Its mutex makes each part below one step. A task's fixed members are a record
-- with its address; what changes (CompilationTask::state, cancellation_requested, outcome, completed)
-- stands in a store indexed by address. Jobs are run by the workers and are not part of the state; the
-- condition variables only wake threads.
pub mod Operations
pub mod Lanes
pub mod Counts
pub mod Submission
pub mod History
pub mod Standing
pub mod Deduplication
use uni_jit.Common.{
  ℕ, suc, ◌+◌, ◌-◌, ◌%◌, ◌^◌, Bool, true, false, not, ◌&&◌, ◌||◌, Option, none, some, List, [], ◌∷◌,
  ◌++◌, length, find_if, ltb, leb, ◌==◌, if◌then◌else◌, Text, same_text, is_empty, grow, shrink,
}
use uni_jit.Status.{StatusCode, Status, status, ok_status}
use uni_jit.Jit.Hotness.{saturating_add}

pub data CompilationPriority : Type 0 where
  background normal urgent : CompilationPriority

pub data CompilationTaskState : Type 0 where
  queued running succeeded failed cancelled : CompilationTaskState

pub record Task : Type 0 where
  pub address : ℕ
  pub id : ℕ
  pub identity : Text
  pub generation : ℕ
  pub estimated_bytes : ℕ
  pub priority : CompilationPriority

pub record Progress : Type 0 where
  pub state : CompilationTaskState
  pub cancellation_requested : Bool
  pub outcome : Status
  pub completed : Bool

pub record CompilationSchedulerOptions : Type 0 where
  pub maximum_queued_tasks : ℕ
  pub maximum_queued_bytes : ℕ

pub record CompilationSchedulerStats : Type 0 where
  pub queued_tasks : ℕ
  pub queued_bytes : ℕ
  pub active_workers : ℕ
  pub peak_queued_tasks : ℕ
  pub peak_queued_bytes : ℕ
  pub peak_active_workers : ℕ
  pub submitted : ℕ
  pub deduplicated : ℕ
  pub started : ℕ
  pub succeeded : ℕ
  pub failed : ℕ
  pub cancelled : ℕ
  pub rejected_capacity : ℕ
  pub rejected_closed : ℕ
  pub submission_waits : ℕ
  pub submission_timeouts : ℕ
  pub accepting : Bool

-- `identities` holds the tasks of the two-level table from identities and generations.
pub record SharedState : Type 0 where
  pub options : CompilationSchedulerOptions
  pub background_queue : List Task
  pub normal_queue : List Task
  pub urgent_queue : List Task
  pub identities : List Task
  pub statistics : CompilationSchedulerStats
  pub next_task_id : ℕ
  pub urgent_burst : ℕ
  pub normal_burst : ℕ
  pub progress : ℕ → Progress

abbrev pub maximum_urgent_burst : ℕ
maximum_urgent_burst = 4

abbrev pub maximum_normal_burst : ℕ
maximum_normal_burst = 2

abbrev pub no_stats : CompilationSchedulerStats
no_stats = record {
  queued_tasks = 0;
  queued_bytes = 0;
  active_workers = 0;
  peak_queued_tasks = 0;
  peak_queued_bytes = 0;
  peak_active_workers = 0;
  submitted = 0;
  deduplicated = 0;
  started = 0;
  succeeded = 0;
  failed = 0;
  cancelled = 0;
  rejected_capacity = 0;
  rejected_closed = 0;
  submission_waits = 0;
  submission_timeouts = 0;
  accepting = true;
}

abbrev pub new_progress : Progress
new_progress = record {
  state = CompilationTaskState.queued;
  cancellation_requested = false;
  outcome = status StatusCode.unavailable 0;
  completed = false;
}

unfoldable pub new_scheduler : CompilationSchedulerOptions → SharedState
new_scheduler options = record {
  options = options;
  background_queue = [];
  normal_queue = [];
  urgent_queue = [];
  identities = [];
  statistics = no_stats;
  next_task_id = 1;
  urgent_burst = 0;
  normal_burst = 0;
  progress = λ address. new_progress;
}

abbrev pub terminal : CompilationTaskState → Bool
terminal CompilationTaskState.queued = false
terminal CompilationTaskState.running = false
terminal _ = true

abbrev pub cancelled_status : Status
cancelled_status = status StatusCode.cancelled 0

abbrev pub is_key : Text → ℕ → Task → Bool
is_key identity generation task = same_text task.identity identity && task.generation == generation

unfoldable pub find_task : Text → ℕ → SharedState → Option Task
find_task identity generation s = find_if (is_key identity generation) s.identities

-- The entry of the task's identity and generation is erased if it is this task.
abbrev pub erase_task : Task → List Task → List Task
erase_task task [] = []
erase_task task (candidate ∷ tasks) =
    if is_key task.identity task.generation candidate
    then if candidate.address == task.address then tasks else candidate ∷ tasks
    else candidate ∷ erase_task task tasks

abbrev pub update : ℕ → Progress → (ℕ → Progress) → ℕ → Progress
update address p progress other = if address == other then p else progress other

abbrev pub complete_task : Task → CompilationTaskState → Status → SharedState → SharedState
complete_task task final outcome s = record s {
  progress =
      update task.address
        (record (s.progress task.address) { state = final; outcome = outcome; completed = true })
        s.progress;
}

abbrev pub max : ℕ → ℕ → ℕ
max a b = if ltb a b then b else a

unfoldable pub queue_has_capacity : ℕ → SharedState → Bool
queue_has_capacity estimated_bytes s =
    ltb s.statistics.queued_tasks s.options.maximum_queued_tasks
    && leb estimated_bytes (s.options.maximum_queued_bytes - s.statistics.queued_bytes)

-- The lane that pop_task_locked takes, and the two bursts after it.
abbrev pub Choice : Type 0
Choice = Option CompilationPriority × ℕ × ℕ

abbrev pub has_tasks : List Task → Bool
has_tasks queue = not (is_empty queue)

unfoldable pub choose_lane : Bool → Bool → Bool → ℕ → ℕ → Choice
choose_lane urgents normals backgrounds urgent_burst normal_burst =
    if urgents && (ltb urgent_burst maximum_urgent_burst || not normals && not backgrounds)
    then (some CompilationPriority.urgent, (urgent_burst + 1) % 2 ^ 64, normal_burst)
    else if normals && (ltb normal_burst maximum_normal_burst || not backgrounds)
    then (some CompilationPriority.normal, 0, (normal_burst + 1) % 2 ^ 64)
    else if backgrounds
    then (some CompilationPriority.background, 0, 0)
    else if urgents
    then (some CompilationPriority.urgent, 1, normal_burst)
    else if normals
    then (some CompilationPriority.normal, 0, 1)
    else (none, urgent_burst, normal_burst)

abbrev pub choice_of : SharedState → Choice
choice_of s =
    choose_lane (has_tasks s.urgent_queue) (has_tasks s.normal_queue) (has_tasks s.background_queue)
      s.urgent_burst s.normal_burst

abbrev pub queue_of : CompilationPriority → SharedState → List Task
queue_of CompilationPriority.background s = s.background_queue
queue_of CompilationPriority.normal s = s.normal_queue
queue_of CompilationPriority.urgent s = s.urgent_queue

abbrev pub with_queue : CompilationPriority → List Task → SharedState → SharedState
with_queue CompilationPriority.background queue s = record s { background_queue = queue }
with_queue CompilationPriority.normal queue s = record s { normal_queue = queue }
with_queue CompilationPriority.urgent queue s = record s { urgent_queue = queue }

-- The counters of a task that leaves its queue.
abbrev pub count_leave : Task → SharedState → SharedState
count_leave task s = record s {
  statistics = record s.statistics {
    queued_tasks = shrink s.statistics.queued_tasks 1;
    queued_bytes = shrink s.statistics.queued_bytes task.estimated_bytes;
  };
}

abbrev pub count_start : Task → SharedState → SharedState
count_start task s =
    let active = grow s.statistics.active_workers 1 in
    record s {
      statistics = record s.statistics {
        active_workers = active;
        peak_active_workers = max s.statistics.peak_active_workers active;
        started = saturating_add s.statistics.started 1;
      };
      progress =
          update task.address
            (record (s.progress task.address) { state = CompilationTaskState.running }) s.progress;
    }

-- The front of the lane is taken; an empty lane is not chosen.
abbrev pub take_front : CompilationPriority → List Task → SharedState → SharedState × Option Task
take_front lane [] s = (s, none)
take_front lane (task ∷ queue) s =
    (count_start task (count_leave task (with_queue lane queue s)), some task)

abbrev pub with_bursts : Choice → SharedState → SharedState
with_bursts choice s = record s { urgent_burst = choice.1; normal_burst = choice.2 }

abbrev pub take_chosen : Option CompilationPriority → SharedState → SharedState × Option Task
take_chosen none s = (s, none)
take_chosen (some lane) s = take_front lane (queue_of lane s) s

unfoldable pub pop_task : SharedState → SharedState × Option Task
pop_task s = let choice = choice_of s in take_chosen choice.0 (with_bursts choice s)
