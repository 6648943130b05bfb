-- ===== src/Runtime/Materialization/Transaction.antt =====
-- materialize_frame as a transaction on the host (src/runtime/materialization.cpp): the calls that it
-- makes in the end, counted, and the call at which it fails.
use uni_jit.Common.{
  ℕ, suc, ◌≡◌, ◌⊎◌, inl, inr, refl, sym, ap, ◌∙◌, true, false, List, [], ◌∷◌, ◌++◌, if_each,
  if_true, if_false,
}
use mathlib.Core.Path.{subst}
use uni_jit.Status.{Status, ok_status, is_ok, Result, success, failure}
use uni_jit.Ir.Opcode.{ValueType}
use uni_jit.Runtime.Deoptimization.{DeoptimizationReason}
use uni_jit.Runtime.Materialization.Build.{
  MaterializationCallbacks, MaterializedFrame, perform, finish,
}

-- How many objects were allocated, fields stored and values installed in the frame.
abbrev pub Counts : Type 0
Counts = ℕ × ℕ × ℕ

module _ {World : Type 0} (host : MaterializationCallbacks World) where
  -- A call on the host in a world, with the counts before it and, if it succeeds, behind it. Objects are
  -- allocated before any field is stored, and fields are stored before any value is installed.
  pub data Call : Counts → Counts → World → World × Status → Type 0 where
    allocates :
        (id kind fields : ℕ) {a : ℕ} {w : World}
        → Call
            (a, 0, 0)
            (suc a, 0, 0)
            w
            ((host.allocate id kind fields w).0, (host.allocate id kind fields w).1)
    stores_primitive :
        (object index : ℕ) (type : ValueType) (value : ℕ) {a s : ℕ} {w : World}
        → Call (a, s, 0) (a, suc s, 0) w (host.store_primitive object index type value w)
    stores_object :
        (object index value : ℕ) {a s : ℕ} {w : World}
        → Call (a, s, 0) (a, suc s, 0) w (host.store_object object index value w)
    installs_primitive :
        (slot : ℕ) (type : ValueType) (value : ℕ) {a s i : ℕ} {w : World}
        → Call (a, s, i) (a, s, suc i) w (host.store_frame_primitive slot type value w)
    installs_object :
        (slot value : ℕ) {a s i : ℕ} {w : World}
        → Call (a, s, i) (a, s, suc i) w (host.store_frame_object slot value w)

  -- The worlds that the host is brought to from `start` by begin and calls that all succeed.
  pub data Went (start : World) : Counts → World → Type 0 where
    begins :
        (reason : DeoptimizationReason) (site resume_offset objects values : ℕ)
        → is_ok (host.begin reason site resume_offset objects values start).1 ≡ true
        → Went start (0, 0, 0) (host.begin reason site resume_offset objects values start).0
    then :
        {n n' : Counts} {w : World} {r : World × Status}
        → Went start n w
        → Call n n' w r
        → is_ok r.1 ≡ true
        → Went start n' r.0

  -- A call that fails, begin or one after calls that all succeeded, with its world and status.
  pub data Fails (start : World) : World × Status → Type 0 where
    begin_fails :
        (reason : DeoptimizationReason) (site resume_offset objects values : ℕ)
        → is_ok (host.begin reason site resume_offset objects values start).1 ≡ false
        → Fails start (host.begin reason site resume_offset objects values start)
    call_fails :
        {n n' : Counts} {w : World} {r : World × Status}
        → Went start n w
        → Call n n' w r
        → is_ok r.1 ≡ false
        → Fails start r
    commit_fails :
        {n : Counts} {w : World}
        → Went start n w
        → is_ok (host.commit w).1 ≡ false
        → Fails start (host.commit w)

  -- The outcome of a transaction: all calls succeeded, as many as the counts say, the commit was the last,
  -- and there was no rollback; or a call failed, and only the rollback followed it.
  abbrev pub IsTransaction : World → Counts → World × Result MaterializedFrame → Type 0
  IsTransaction start n r =
      ((w : World) × (result : MaterializedFrame) × Went start n w
        × (is_ok (host.commit w).1 ≡ true)
        × (r ≡ ((host.commit w).0, success result)))
      ⊎ ((w : World) × (s : Status) × Fails start (w, s) × (r ≡ (host.rollback w, failure s)))

  -- Calls that take the counts from one to the other.
  abbrev pub Chain : Counts → List (World → World × Status) → Counts → Type 0
  Chain n [] n' = n ≡ n'
  Chain n (call ∷ calls) n' = (m : Counts) × ((w : World) → Call n m w (call w)) × Chain m calls n'

  pub Chain-append :
      (n m n' : Counts) (calls more : List (World → World × Status))
      → Chain n calls m
      → Chain m more n'
      → Chain n (calls ++ more) n'
  Chain-append n m n' [] more first second = subst (λ k. Chain k more n') (sym first) second
  Chain-append n m n' (call ∷ calls) more (k, here, rest) second =
      (k, here, Chain-append k m n' calls more rest second)

  -- How calls with a commit behind them end.
  abbrev Ends : World → Counts → World × Status → Type 0
  Ends start n r =
      ((w : World) × Went start n w
        × (is_ok (host.commit w).1 ≡ true)
        × (is_ok r.1 ≡ true)
        × (r.0 ≡ (host.commit w).0))
      ⊎ ((is_ok r.1 ≡ false) × Fails start r)

  perform-Ends :
      (start : World) (n n' : Counts) (calls : List (World → World × Status)) (w : World)
      → Chain n calls n'
      → Went start n w
      → Ends start n' (perform (calls ++ host.commit ∷ []) w)
  perform-Ends start n n' [] w chain h =
      if_each {A = World × Status} (Ends start n') (is_ok (host.commit w).1)
        ((host.commit w).0, ok_status) (host.commit w)
        (λ good. inl (w, subst (λ k. Went start k w) chain h, good, refl, refl))
        (λ bad. inr (bad, Fails.commit_fails h bad))
  perform-Ends start n n' (call ∷ calls) w (m, here, rest) h =
      if_each {A = World × Status} (Ends start n') (is_ok (call w).1)
        (perform (calls ++ host.commit ∷ []) (call w).0) (call w)
        (λ good. perform-Ends start m n' calls (call w).0 rest (Went.then h (here w) good))
        (λ bad. inr (bad, Fails.call_fails h (here w) bad))

  pub finish-IsTransaction :
      (start : World) (result : MaterializedFrame) (n n' : Counts)
      (calls : List (World → World × Status)) (w : World)
      → Chain n calls n'
      → Went start n w
      → IsTransaction start n' (finish host result (perform (calls ++ host.commit ∷ []) w))
  finish-IsTransaction start result n n' calls w chain h =
      let ended = perform (calls ++ host.commit ∷ []) w in
      elim (perform-Ends start n n' calls w chain h) [
        | inl (v, went, committed, good, reached) ↦
            inl
              (v, result, went, committed, if_true _ _ good ∙ ap (λ x. (x, success result)) reached)
        | inr (bad, fails) ↦ inr (ended.0, ended.1, fails, if_false _ _ bad)
      ]
