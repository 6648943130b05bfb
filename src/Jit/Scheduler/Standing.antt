-- ===== src/Jit/Scheduler/Standing.antt =====
-- How long a task stays in the table of identities (src/jit/compilation_scheduler.cpp).
use mathlib.Core.Path.{subst}
use uni_jit.Common.{
  ℕ, ◌≡◌, ◌≢◌, ◌⊎◌, inl, inr, refl, sym, ap, ◌∙◌, Bool, true, false, not, Option, none, some, List,
  [], ◌∷◌, find_if, find_if-some, ◌==◌, ==→eq, Bool-cases, if_both, if_true, if_false, same_text→eq,
  arith,
}
use uni_jit.Status.{Status, is_ok}
use uni_jit.Jit.Scheduler.{
  CompilationPriority, Task, SharedState, find_task, is_key, erase_task, terminal,
  queue_has_capacity, queue_of, with_queue, choice_of, with_bursts, take_front, take_chosen,
  pop_task,
}
use uni_jit.Jit.Scheduler.Operations.{
  CompilationRequest, CompilationSubmission, SchedulerShutdownMode, count_wait, count_timeout,
  count_rejected_capacity, new_task, advance_id, attempt_found, attempt, validate_request,
  is_exhausted, screen, or_full, unless_screened, try_submit, finish_task, find_address,
  erase_address, is_queued, request_cancellation, cancel_queued, cancel_task, shutdown,
}

pub with_queue-identities :
    (lane : CompilationPriority) (queue : List Task) (s : SharedState)
    → (with_queue lane queue s).identities ≡ s.identities
with_queue-identities CompilationPriority.background queue s = refl
with_queue-identities CompilationPriority.normal queue s = refl
with_queue-identities CompilationPriority.urgent queue s = refl

-- The steps that may follow while the task at an address is neither finished nor cancelled: submissions,
-- waits and timeouts, pops, the end or the cancellation of other tasks, and a shutdown that drains.
pub data Undisturbed (address : ℕ) (s : SharedState) : SharedState → Type 0 where
  start : Undisturbed address s s
  submits :
      (allocated : Bool) (place : ℕ) (request : CompilationRequest) {t : SharedState}
      → Undisturbed address s t
      → Undisturbed address s (try_submit allocated place request t).0
  attempts :
      (allocated : Bool) (place : ℕ) (request : CompilationRequest) {t : SharedState}
      → Undisturbed address s t
      → Undisturbed address s (attempt allocated place request t).0
  waits : {t : SharedState} → Undisturbed address s t → Undisturbed address s (count_wait t)
  times_out : {t : SharedState} → Undisturbed address s t → Undisturbed address s (count_timeout t)
  pops : {t : SharedState} → Undisturbed address s t → Undisturbed address s (pop_task t).0
  finishes :
      (other : Task) (outcome : Status) {t : SharedState}
      → other.address ≢ address
      → Undisturbed address s t
      → Undisturbed address s (finish_task other outcome t)
  cancels :
      (other : Task) {t : SharedState}
      → other.address ≢ address
      → Undisturbed address s t
      → Undisturbed address s (cancel_task other t).0
  drains :
      {t : SharedState}
      → Undisturbed address s t
      → Undisturbed address s (shutdown SchedulerShutdownMode.drain t)

-- The task is the one that the table has for its identity and generation.
abbrev pub Stands : Task → List Task → Type 0
Stands task tasks = find_if (is_key task.identity task.generation) tasks ≡ some task

some_injective : {x y : Task} → some x ≡ some y → x ≡ y
some_injective {x} h = ap (λ o. elim o [ none ↦ x | some y ↦ y ]) h

-- The table after a turn of the loop: the same, or with a task of a key that it did not have.
abbrev Extends :
    ℕ
    → CompilationRequest
    → SharedState
    → Option Task
    → SharedState × Option CompilationSubmission
    → Type 0
Extends address request s o r =
    (r.0.identities ≡ s.identities)
    ⊎ ((o ≡ none) × (r.0.identities ≡ new_task address request s ∷ s.identities))

attempt_found-Extends :
    (allocated : Bool) (address : ℕ) (request : CompilationRequest) (s : SharedState)
    (o : Option Task)
    → Extends address request s o (attempt_found allocated address request s o)
attempt_found-Extends allocated address request s (some existing) = inl refl
attempt_found-Extends allocated address request s none =
    let P = Extends address request s none in
    if_both P (not s.statistics.accepting) _ _ (inl refl) (
      if_both P (queue_has_capacity request.estimated_bytes s) _ _
        (if_both P allocated _ _
          (inr (
            refl,
            ap (λ ts. new_task address request s ∷ ts)
                (with_queue-identities request.priority _ (advance_id s)),
          ))
          (inl refl))
        (inl refl))

module _ (task : Task) where
  key_is :
      (t : Task)
      → is_key task.identity task.generation t ≡ true
      → (t.identity ≡ task.identity) × (t.generation ≡ task.generation)
  key_is t h =
      (same_text→eq t.identity task.identity (ground (arith, h)), ==→eq (ground (arith, h)))

  Stands-cons :
      (t : Task) (tasks : List Task)
      → is_key task.identity task.generation t ≡ false
      → Stands task tasks
      → Stands task (t ∷ tasks)
  Stands-cons t tasks miss h = if_false _ _ miss ∙ h

  attempt-Stands :
      (allocated : Bool) (address : ℕ) (request : CompilationRequest) (s : SharedState)
      → Stands task s.identities
      → Stands task (attempt allocated address request s).0.identities
  unfolding attempt find_task
  attempt-Stands allocated address request s h =
      let found = find_task request.identity request.generation s in
      elim (attempt_found-Extends allocated address request s found) [
        | inl same ↦ subst (Stands task) (sym same) h
        | inr (fresh, longer) ↦
            subst (Stands task) (sym longer)
              (elim (Bool-cases
                (is_key task.identity task.generation (new_task address request s))) [
                  | inr miss ↦ Stands-cons (new_task address request s) s.identities miss h
                  | inl hit ↦
                      let same = key_is (new_task address request s) hit in
                      let there : find_if (is_key request.identity request.generation) s.identities
                          ≡ some task =
                        ap (λ i. find_if (is_key i request.generation) s.identities) same.0
                        ∙ ap (λ g. find_if (is_key task.identity g) s.identities) same.1
                        ∙ h in
                      absurd (ground (arith, sym fresh ∙ there))
                ])
      ]

  try_submit-Stands :
      (allocated : Bool) (address : ℕ) (request : CompilationRequest) (s : SharedState)
      → Stands task s.identities
      → Stands task (try_submit allocated address request s).0.identities
  unfolding try_submit screen
  try_submit-Stands allocated address request s h =
      if_both
        (λ r.
          Stands task
            (unless_screened r (λ t. or_full (attempt allocated address request t))).0.identities)
        (is_ok (validate_request request s.options)) _ _
        (filled (attempt allocated address request s)
          (attempt-Stands allocated address request s h))
        (if_both (λ t. Stands task t.identities)
          (is_exhausted (validate_request request s.options).code) (count_rejected_capacity s) s h
          h)
    where
      filled :
          (r : SharedState × Option CompilationSubmission)
          → Stands task r.0.identities
          → Stands task (or_full r).0.identities
      filled (t, none) k = k
      filled (t, some submission) k = k

  take_front-Stands :
      (lane : CompilationPriority) (queue : List Task) (s : SharedState)
      → Stands task s.identities
      → Stands task (take_front lane queue s).0.identities
  take_front-Stands lane [] s h = h
  take_front-Stands lane (first ∷ queue) s h =
      subst (Stands task) (sym (with_queue-identities lane queue s)) h

  pop_task-Stands :
      (s : SharedState) → Stands task s.identities → Stands task (pop_task s).0.identities
  unfolding pop_task
  pop_task-Stands s h = taken (choice_of s).0
    where
      taken :
          (o : Option CompilationPriority)
          → Stands task (take_chosen o (with_bursts (choice_of s) s)).0.identities
      taken none = h
      taken (some lane) =
          take_front-Stands lane (queue_of lane (with_bursts (choice_of s) s))
            (with_bursts (choice_of s) s) h

  -- Another task is erased.
  erase_task-Stands :
      (other : Task) (tasks : List Task)
      → other.address ≢ task.address
      → Stands task tasks
      → Stands task (erase_task other tasks)
  erase_task-Stands other [] apart h = h
  erase_task-Stands other (t ∷ tasks) apart h =
      elim (Bool-cases (is_key task.identity task.generation t)) [
        | inl hit ↦
            let this : t ≡ task = some_injective (sym (if_true _ _ hit) ∙ h) in
            let stays : (t.address == other.address) ≡ false =
              apart_addresses (λ e. apart (sym e ∙ ap (λ u. u.address) this)) in
            let first : (rest : List Task) → Stands task (t ∷ rest) =
              λ rest. if_true _ _ hit ∙ ap some this in
            if_both (Stands task) (is_key other.identity other.generation t) _ _
              (subst (Stands task) (sym (if_false _ _ stays)) (first tasks))
              (first (erase_task other tasks))
        | inr miss ↦
            let later : Stands task tasks = sym (if_false _ _ miss) ∙ h in
            if_both (Stands task) (is_key other.identity other.generation t) _ _
              (if_both (Stands task) (t.address == other.address) _ _ later h)
              (Stands-cons t (erase_task other tasks) miss
                (erase_task-Stands other tasks apart later))
      ]
    where
      apart_addresses : {a b : ℕ} → a ≢ b → (a == b) ≡ false
      apart_addresses {a} {b} h = elim (Bool-cases (a == b)) [
        | inl same ↦ absurd (h (==→eq same))
        | inr differ ↦ differ
      ]

  cancel_queued-Stands :
      (lane : CompilationPriority) (o : Option Task) (address : ℕ) (s : SharedState)
      → find_address address (queue_of lane s) ≡ o
      → address ≢ task.address
      → Stands task s.identities
      → Stands task (cancel_queued lane o s).identities
  cancel_queued-Stands lane none address s found apart h = h
  cancel_queued-Stands lane (some other) address s found apart h =
      let left = erase_address other.address (queue_of lane s) in
      let at : other.address ≡ address =
        ==→eq (find_if-some (λ t. t.address == address) (queue_of lane s) other found) in
      erase_task-Stands other (with_queue lane left s).identities (λ e. apart (sym at ∙ e))
        (subst (Stands task) (sym (with_queue-identities lane left s)) h)

  cancel_task-Stands :
      (other : Task) (s : SharedState)
      → other.address ≢ task.address
      → Stands task s.identities
      → Stands task (cancel_task other s).0.identities
  unfolding cancel_task
  cancel_task-Stands other s apart h =
      let p = s.progress other.address in
      let requested = request_cancellation other.address s in
      let P : SharedState × Bool → Type 0 = λ r. Stands task r.0.identities in
      if_both P (terminal p.state) _ _ h (
        if_both P (not (is_queued p.state)) _ _ h
          (cancel_queued-Stands other.priority _ other.address requested refl apart h))

  pub Undisturbed-Stands :
      (s t : SharedState)
      → Undisturbed task.address s t
      → Stands task s.identities
      → Stands task t.identities
  unfolding finish_task shutdown
  Undisturbed-Stands s t Undisturbed.start h = h
  Undisturbed-Stands s _ (Undisturbed.submits allocated place request {t} steps) h =
      try_submit-Stands allocated place request t (Undisturbed-Stands s t steps h)
  Undisturbed-Stands s _ (Undisturbed.attempts allocated place request {t} steps) h =
      attempt-Stands allocated place request t (Undisturbed-Stands s t steps h)
  Undisturbed-Stands s _ (Undisturbed.waits {t} steps) h = Undisturbed-Stands s t steps h
  Undisturbed-Stands s _ (Undisturbed.times_out {t} steps) h = Undisturbed-Stands s t steps h
  Undisturbed-Stands s _ (Undisturbed.pops {t} steps) h =
      pop_task-Stands t (Undisturbed-Stands s t steps h)
  Undisturbed-Stands s _ (Undisturbed.finishes other outcome {t} apart steps) h =
      erase_task-Stands other t.identities apart (Undisturbed-Stands s t steps h)
  Undisturbed-Stands s _ (Undisturbed.cancels other {t} apart steps) h =
      cancel_task-Stands other t apart (Undisturbed-Stands s t steps h)
  Undisturbed-Stands s _ (Undisturbed.drains {t} steps) h = Undisturbed-Stands s t steps h
