-- ===== src/Jit/Scheduler/Operations.antt =====
-- Submission, completion, cancellation and shutdown (src/jit/compilation_scheduler.cpp). A submission that
-- waits for space is several steps: attempts, and a wait or a timeout after one that finds the queue full.
use uni_jit.Common.{
  ℕ, ◌+◌, ◌-◌, ◌^◌, Bool, true, false, not, ◌&&◌, ◌||◌, Option, none, some, List, [], ◌∷◌, ◌++◌,
  length, find_if, ltb, ◌==◌, if◌then◌else◌, Text, is_empty, grow, shrink,
}
use uni_jit.Status.{StatusCode, Status, status, ok_status, is_ok}
use uni_jit.Jit.Hotness.{saturating_add}
use uni_jit.Jit.Scheduler.{
  CompilationPriority, CompilationTaskState, Task, CompilationSchedulerOptions,
  CompilationSchedulerStats, SharedState, new_progress, terminal, cancelled_status, find_task,
  erase_task, update, complete_task, max, queue_has_capacity, queue_of, with_queue, count_leave,
}

pub record CompilationRequest : Type 0 where
  pub identity : Text
  pub generation : ℕ
  pub estimated_bytes : ℕ
  pub priority : CompilationPriority
  pub has_job : Bool

pub record CompilationSubmission : Type 0 where
  pub status : Status
  pub ticket : Option Task
  pub enqueued : Bool
  pub deduplicated : Bool

pub data SchedulerShutdownMode : Type 0 where
  drain cancel : SchedulerShutdownMode

abbrev pub maximum_identity_bytes : ℕ
maximum_identity_bytes = 4096

-- The last test of the source, for an unknown priority, has no counterpart.
unfoldable pub validate_request : CompilationRequest → CompilationSchedulerOptions → Status
validate_request request options =
    if is_empty request.identity || ltb maximum_identity_bytes (length request.identity)
    then status StatusCode.invalid_argument 0
    else if request.estimated_bytes == 0
    then status StatusCode.invalid_argument 0
    else if ltb options.maximum_queued_bytes request.estimated_bytes
    then status StatusCode.resource_exhausted 0
    else if not request.has_job
    then status StatusCode.invalid_argument 0
    else ok_status

abbrev pub refused : Status → CompilationSubmission
refused s = record { status = s; ticket = none; enqueued = false; deduplicated = false }

abbrev pub count_rejected_capacity : SharedState → SharedState
count_rejected_capacity s = record s {
  statistics = record s.statistics {
    rejected_capacity = saturating_add s.statistics.rejected_capacity 1;
  };
}

abbrev pub count_rejected_closed : SharedState → SharedState
count_rejected_closed s = record s {
  statistics = record s.statistics {
    rejected_closed = saturating_add s.statistics.rejected_closed 1;
  };
}

abbrev pub count_deduplicated : SharedState → SharedState
count_deduplicated s = record s {
  statistics = record s.statistics { deduplicated = saturating_add s.statistics.deduplicated 1 };
}

abbrev pub count_wait : SharedState → SharedState
count_wait s = record s {
  statistics = record s.statistics {
    submission_waits = saturating_add s.statistics.submission_waits 1;
  };
}

abbrev pub count_timeout : SharedState → SharedState
count_timeout s = record s {
  statistics = record s.statistics {
    submission_timeouts = saturating_add s.statistics.submission_timeouts 1;
  };
}

abbrev pub count_cancelled : SharedState → SharedState
count_cancelled s = record s {
  statistics = record s.statistics { cancelled = saturating_add s.statistics.cancelled 1 };
}

abbrev pub new_task : ℕ → CompilationRequest → SharedState → Task
new_task address request s = record {
  address = address;
  id = s.next_task_id;
  identity = request.identity;
  generation = request.generation;
  estimated_bytes = request.estimated_bytes;
  priority = request.priority;
}

abbrev pub advance_id : SharedState → SharedState
advance_id s = record s {
  next_task_id = if s.next_task_id == 2 ^ 64 - 1 then 1 else s.next_task_id + 1;
}

abbrev pub count_enqueued : Task → SharedState → SharedState
count_enqueued task s =
    let tasks = grow s.statistics.queued_tasks 1 in
    let bytes = grow s.statistics.queued_bytes task.estimated_bytes in
    record s {
      identities = task ∷ s.identities;
      progress = update task.address new_progress s.progress;
      statistics = record s.statistics {
        queued_tasks = tasks;
        queued_bytes = bytes;
        peak_queued_tasks = max s.statistics.peak_queued_tasks tasks;
        peak_queued_bytes = max s.statistics.peak_queued_bytes bytes;
        submitted = saturating_add s.statistics.submitted 1;
      };
    }

-- The task is made at the address and queued, if memory is found.
abbrev pub enqueue :
    Bool → ℕ → CompilationRequest → SharedState → SharedState × Option CompilationSubmission
enqueue allocated address request s =
    let task = new_task address request s in
    let lane = request.priority in
    if allocated
    then (
      count_enqueued task (with_queue lane (queue_of lane s ++ task ∷ []) (advance_id s)),
      some (record {
        status = ok_status;
        ticket = some task;
        enqueued = true;
        deduplicated = false;
      }),
    )
    else (advance_id s, some (refused (status StatusCode.resource_exhausted 0)))

abbrev pub attempt_new :
    Bool → ℕ → CompilationRequest → SharedState → SharedState × Option CompilationSubmission
attempt_new allocated address request s =
    if not s.statistics.accepting
    then (count_rejected_closed s, some (refused (status StatusCode.unavailable 0)))
    else if queue_has_capacity request.estimated_bytes s
    then enqueue allocated address request s
    else (s, none)

abbrev pub attempt_found :
    Bool
    → ℕ
    → CompilationRequest
    → SharedState
    → Option Task
    → SharedState × Option CompilationSubmission
attempt_found allocated address request s none = attempt_new allocated address request s
attempt_found allocated address request s (some existing) = (
  count_deduplicated s,
  some (record {
    status = ok_status;
    ticket = some existing;
    enqueued = false;
    deduplicated = true;
  }),
)

-- A turn of the loop of submit; none where the queue is full.
unfoldable pub attempt :
    Bool → ℕ → CompilationRequest → SharedState → SharedState × Option CompilationSubmission
attempt allocated address request s =
    attempt_found allocated address request s (find_task request.identity request.generation s)

-- The start of submit: none where the request is valid.
abbrev pub is_exhausted : StatusCode → Bool
is_exhausted StatusCode.resource_exhausted = true
is_exhausted _ = false

unfoldable pub screen :
    CompilationRequest → SharedState → SharedState × Option CompilationSubmission
screen request s =
    let validation = validate_request request s.options in
    if is_ok validation then (s, none) else (
      if is_exhausted validation.code then count_rejected_capacity s else s,
      some (refused validation),
    )

-- The end of try_submit where the queue is full.
abbrev pub or_full :
    SharedState × Option CompilationSubmission → SharedState × CompilationSubmission
or_full (s, some submission) = (s, submission)
or_full (s, none) = (count_rejected_capacity s, refused (status StatusCode.resource_exhausted 0))

abbrev pub unless_screened :
    SharedState × Option CompilationSubmission
    → (SharedState → SharedState × CompilationSubmission)
    → SharedState × CompilationSubmission
unless_screened (s, some submission) next = (s, submission)
unless_screened (s, none) next = next s

unfoldable pub try_submit :
    Bool → ℕ → CompilationRequest → SharedState → SharedState × CompilationSubmission
try_submit allocated address request s =
    unless_screened (screen request s) (λ t. or_full (attempt allocated address request t))

abbrev pub is_cancelled : StatusCode → Bool
is_cancelled StatusCode.cancelled = true
is_cancelled _ = false

abbrev pub final_state : Bool → Status → CompilationTaskState
final_state cancelled outcome =
    if cancelled
    then CompilationTaskState.cancelled
    else if is_ok outcome
    then CompilationTaskState.succeeded
    else CompilationTaskState.failed

abbrev pub count_final :
    CompilationTaskState → CompilationSchedulerStats → CompilationSchedulerStats
count_final CompilationTaskState.succeeded t = record t { succeeded = saturating_add t.succeeded 1 }
count_final CompilationTaskState.cancelled t = record t { cancelled = saturating_add t.cancelled 1 }
count_final _ t = record t { failed = saturating_add t.failed 1 }

-- What run_worker does with the outcome of a job.
unfoldable pub finish_task : Task → Status → SharedState → SharedState
finish_task task outcome s =
    let cancelled = (s.progress task.address).cancellation_requested || is_cancelled outcome.code in
    let final = final_state cancelled outcome in
    let reported =
      if cancelled && not (is_cancelled outcome.code) then cancelled_status else outcome in
    complete_task task final reported (record s {
      identities = erase_task task s.identities;
      statistics =
          count_final final
            (record s.statistics { active_workers = shrink s.statistics.active_workers 1 });
    })

abbrev pub find_address : ℕ → List Task → Option Task
find_address address queue = find_if (λ task. task.address == address) queue

abbrev pub erase_address : ℕ → List Task → List Task
erase_address address [] = []
erase_address address (task ∷ queue) =
    if task.address == address then queue else task ∷ erase_address address queue

abbrev pub is_queued : CompilationTaskState → Bool
is_queued CompilationTaskState.queued = true
is_queued _ = false

abbrev pub request_cancellation : ℕ → SharedState → SharedState
request_cancellation address s = record s {
  progress =
      update address (record (s.progress address) { cancellation_requested = true }) s.progress;
}

-- A task that was found in its queue; it is the ticket's.
abbrev pub cancel_queued : CompilationPriority → Option Task → SharedState → SharedState
cancel_queued lane none s = s
cancel_queued lane (some task) s =
    let left =
      count_leave task (with_queue lane (erase_address task.address (queue_of lane s)) s) in
    complete_task task CompilationTaskState.cancelled cancelled_status
      (count_cancelled (record left { identities = erase_task task left.identities }))

unfoldable pub cancel_task : Task → SharedState → SharedState × Bool
cancel_task task s =
    let p = s.progress task.address in
    let requested = request_cancellation task.address s in
    if terminal p.state
    then (s, false)
    else if not (is_queued p.state)
    then (requested, not p.cancellation_requested)
    else (
      cancel_queued task.priority (find_address task.address (queue_of task.priority requested))
          requested,
      not p.cancellation_requested,
    )

abbrev pub request_all : List Task → SharedState → SharedState
request_all [] s = s
request_all (task ∷ tasks) s = request_all tasks (request_cancellation task.address s)

abbrev pub cancel_lane : List Task → SharedState → SharedState
cancel_lane [] s = s
cancel_lane (task ∷ queue) s = cancel_lane queue (
    complete_task task CompilationTaskState.cancelled cancelled_status
      (count_cancelled (record s { identities = erase_task task s.identities })))

abbrev pub without_queues : SharedState → SharedState
without_queues s = record s {
  background_queue = [];
  normal_queue = [];
  urgent_queue = [];
  statistics = record s.statistics { queued_tasks = 0; queued_bytes = 0 };
}

abbrev pub close : SharedState → SharedState
close s = record s { statistics = record s.statistics { accepting = false } }

-- What shutdown does before it joins the workers.
unfoldable pub shutdown : SchedulerShutdownMode → SharedState → SharedState
shutdown SchedulerShutdownMode.drain s = close s
shutdown SchedulerShutdownMode.cancel s =
    let closed = request_all s.identities (close s) in
    without_queues (
      cancel_lane s.urgent_queue
        (cancel_lane s.normal_queue (cancel_lane s.background_queue closed)))
