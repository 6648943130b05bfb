-- ===== src/Jit/Scheduler/Deduplication.antt =====
-- A second submission of what is queued (src/jit/compilation_scheduler.cpp).
use uni_jit.Common.{
  ℕ, ◌≡◌, ◌⊎◌, inl, inr, refl, sym, ap, ◌∙◌, Bool, true, false, not, ◌&&◌, Option, none, some, ◌∷◌,
  find_if, ==_refl, if_both, if_true, same_text_refl, arith,
}
use uni_jit.Status.{ok_status}
use uni_jit.Jit.Scheduler.{Task, SharedState, find_task, is_key, queue_has_capacity}
use uni_jit.Jit.Scheduler.Operations.{
  CompilationRequest, CompilationSubmission, count_deduplicated, new_task, advance_id,
  attempt_found, attempt,
}
use uni_jit.Jit.Scheduler.Standing.{with_queue-identities, Undisturbed, Stands, Undisturbed-Stands}

abbrev pub ticket_for : Bool → Task → CompilationSubmission
ticket_for enqueued task = record {
  status = ok_status;
  ticket = some task;
  enqueued = enqueued;
  deduplicated = not enqueued;
}

-- Nothing was queued.
abbrev NothingQueued : Option CompilationSubmission → Type 0
NothingQueued none = Unit
NothingQueued (some submission) = submission.enqueued ≡ false

-- Nothing was queued, or the request's task was, and stands in the table.
abbrev Queues :
    ℕ → CompilationRequest → SharedState → SharedState × Option CompilationSubmission → Type 0
Queues address request s r =
    NothingQueued r.1
    ⊎ ((r.0.identities ≡ new_task address request s ∷ s.identities)
        × (r.1 ≡ some (ticket_for true (new_task address request s))))

attempt_found-Queues :
    (allocated : Bool) (address : ℕ) (request : CompilationRequest) (s : SharedState)
    (o : Option Task)
    → Queues address request s (attempt_found allocated address request s o)
attempt_found-Queues allocated address request s (some existing) = inl refl
attempt_found-Queues allocated address request s none =
    let P = Queues address request s in
    if_both P (not s.statistics.accepting) _ _ (inl refl) (
      if_both P (queue_has_capacity request.estimated_bytes s) _ _
        (if_both P allocated _ _
          (inr (
            ap (λ ts. new_task address request s ∷ ts)
                (with_queue-identities request.priority _ (advance_id s)),
            refl,
          ))
          (inl refl))
        (inl _))

nothing-enqueued :
    (o : Option CompilationSubmission) (submission : CompilationSubmission)
    → o ≡ some submission
    → NothingQueued o
    → submission.enqueued ≡ false
nothing-enqueued none submission same h = absurd (ground (arith, same))
nothing-enqueued (some other) submission same h =
    ap (λ o. elim o [ none ↦ false | some t ↦ t.enqueued ]) (sym same) ∙ h

found_first :
    (address : ℕ) (request : CompilationRequest) (s t : SharedState)
    → t.identities ≡ new_task address request s ∷ s.identities
    → find_task request.identity request.generation t ≡ some (new_task address request s)
unfolding find_task
found_first address request s t first =
    ap (find_if (is_key request.identity request.generation)) first
    ∙ if_true _ _ (both (same_text_refl request.identity) (==_refl request.generation))
  where
    both : {a b : Bool} → a ≡ true → b ≡ true → (a && b) ≡ true
    both h k = ground (arith, h, k)

-- Once a request has been queued, and for as long as its task is neither finished nor cancelled, whatever
-- else runs, no other request of its identity and generation is queued: it gets the ticket of the first,
-- whatever its cost and priority are and whether or not the queue is full.
pub attempt_deduplicates :
    (allocated again : Bool) (address later : ℕ) (request second : CompilationRequest)
    (s t : SharedState) (submission : CompilationSubmission)
    → (attempt allocated address request s).1 ≡ some submission
    → submission.enqueued ≡ true
    → Undisturbed address (attempt allocated address request s).0 t
    → second.identity ≡ request.identity
    → second.generation ≡ request.generation
    → (attempt again later second t
        ≡ (count_deduplicated t, some (ticket_for false (new_task address request s))))
      × (submission.ticket ≡ some (new_task address request s))
unfolding attempt find_task
attempt_deduplicates allocated again address later request second s t submission done enqueued steps
      same_identity same_generation =
    elim (attempt_found-Queues allocated address request s
      (find_task request.identity request.generation s)) [
        | inl nothing ↦
            absurd (ground (arith, enqueued, nothing-enqueued _ submission done nothing))
        | inr queued ↦
            let task = new_task address request s in
            let queued_state = (attempt allocated address request s).0 in
            let stands : Stands task t.identities =
              Undisturbed-Stands task queued_state t steps
                (found_first address request s queued_state queued.0) in
            (
              ap (attempt_found again later second t) (
                  ap (λ i. find_task i second.generation t) same_identity
                  ∙ ap (λ g. find_task request.identity g t) same_generation
                  ∙ stands),
              ap (λ o. elim o [ none ↦ none | some u ↦ u.ticket ]) (sym done ∙ queued.1),
            )
      ]
