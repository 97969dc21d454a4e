-- ===== src/Workflow/Runner/Parallel/Laws.antt =====
-- `runParallel` of WorkflowRunner: the order in which the calls end does not matter.
use nexus_ai_workspace.Common.{
  String, ◌≡◌, refl, sym, ap, ◌∙◌, subst, Bool, true, false, not, List, [], ◌∷◌, ◌++◌, ◌+◌, length,
  arith, Bool-cases, inl, inr, All, length-append, ◌&&◌, map, select, ◌↔◌, select-perm,
  some_of-perm, length-perm,
}
use mathlib.Core.List.{Perm, append_assoc, append-nil}
use mathlib.Core.List.Perm
use nexus_ai_workspace.Workflow.{WorkflowState, completed, failed}
use nexus_ai_workspace.Workflow.Execution.{WorkflowExecution, StepExecution, is_cancelled}
use nexus_ai_workspace.Workflow.Runner.{
  Outcome, Attempt, returns, finished, threw, should_continue_on_failure, complete_step, fail_step,
}
use nexus_ai_workspace.Workflow.Runner.Parallel.{
  Arrival, settle, note_end, settle_all, is_rejected, parallel_end, run_parallel,
}

abbrev pub ended_well : WorkflowState → Bool
ended_well completed = true
ended_well _ = false

abbrev pub ended_badly : WorkflowState → Bool
ended_badly failed = true
ended_badly _ = false

abbrev pub succeeds : Attempt → Bool
succeeds (finished s) = ended_well s.state
succeeds (threw t) = false

abbrev pub fails : Attempt → Bool
fails (finished s) = ended_badly s.state
fails (threw t) = true

abbrev pub ids_with : (Attempt → Bool) → List Arrival → List String
ids_with p arrivals = map (λ a. a.step_id) (select (λ a. p a.attempt) arrivals)

-- The execution after the ends of some calls.
pub record Settled (e e' : WorkflowExecution) (arrivals : List Arrival) : Type 0 where
  pub completed : e'.completed_steps ≡ e.completed_steps ++ ids_with succeeds arrivals
  pub failed : e'.failed_steps ≡ e.failed_steps ++ ids_with fails arrivals
  pub counted : e'.failure_count ≡ e.failure_count + length (ids_with fails arrivals)
  pub kept : e'.metadata ≡ e.metadata

Settled-none : (e : WorkflowExecution) → Settled e e []
Settled-none e = record {
  completed = sym (append-nil _);
  failed = sym (append-nil _);
  counted = omega arith;
  kept = refl;
}

note_end-Settled :
    (id : String) (s : StepExecution) (m : WorkflowExecution → WorkflowExecution)
    (st : WorkflowState) (e : WorkflowExecution)
    → Settled e
        (note_end id st e)
        (record { step_id = id; attempt = finished (record s { state = st }); meanwhile = m } ∷ [])
unfolding complete_step fail_step
note_end-Settled id s m completed e = record {
  completed = refl;
  failed = sym (append-nil _);
  counted = omega arith;
  kept = refl;
}
note_end-Settled id s m failed e = record {
  completed = sym (append-nil _);
  failed = refl;
  counted = omega arith;
  kept = refl;
}
note_end-Settled id s m _ e = record {
  completed = sym (append-nil _);
  failed = sym (append-nil _);
  counted = omega arith;
  kept = refl;
}

settle-Settled :
    (id : String) (t : Attempt) (m : WorkflowExecution → WorkflowExecution) (e : WorkflowExecution)
    → Settled e (settle id t e) (record { step_id = id; attempt = t; meanwhile = m } ∷ [])
unfolding fail_step
settle-Settled id (finished s) m e = note_end-Settled id s m s.state e
settle-Settled id (threw t) m e = record {
  completed = sym (append-nil _);
  failed = refl;
  counted = omega arith;
  kept = refl;
}

-- What happens to the execution between the ends leaves what the runner tracks as it is.
pub record Quiet (a : Arrival) : Type 0 where
  pub completed : (e : WorkflowExecution) → (a.meanwhile e).completed_steps ≡ e.completed_steps
  pub failed : (e : WorkflowExecution) → (a.meanwhile e).failed_steps ≡ e.failed_steps
  pub counted : (e : WorkflowExecution) → (a.meanwhile e).failure_count ≡ e.failure_count
  pub kept : (e : WorkflowExecution) → (a.meanwhile e).metadata ≡ e.metadata

ids_with-append :
    (p : Attempt → Bool) (xs ys : List Arrival)
    → ids_with p (xs ++ ys) ≡ ids_with p xs ++ ids_with p ys
ids_with-append p [] ys = refl
ids_with-append p (x ∷ xs) ys = elim (Bool-cases (p x.attempt)) [
  | inl e ↦ rw (e, ids_with-append p xs ys) refl
  | inr e ↦ rw (e, ids_with-append p xs ys) refl
]

Settled-trans :
    (e f g : WorkflowExecution) (xs ys : List Arrival)
    → Settled e f xs
    → Settled f g ys
    → Settled e g (xs ++ ys)
Settled-trans e f g xs ys a b = record {
  completed =
      b.completed
      ∙ ap (◌++ ids_with succeeds ys) a.completed
      ∙ append_assoc e.completed_steps (ids_with succeeds xs) _
      ∙ ap (e.completed_steps ++◌) (sym (ids_with-append succeeds xs ys));
  failed =
      b.failed
      ∙ ap (◌++ ids_with fails ys) a.failed
      ∙ append_assoc e.failed_steps (ids_with fails xs) _
      ∙ ap (e.failed_steps ++◌) (sym (ids_with-append fails xs ys));
  counted =
      rw (ids_with-append fails xs ys) (
        omega (arith, a.counted, b.counted, length-append (ids_with fails xs) (ids_with fails ys)));
  kept = b.kept ∙ a.kept;
}

Quiet-Settled :
    (a : Arrival) (e e' : WorkflowExecution) (arrivals : List Arrival)
    → Quiet a
    → Settled (a.meanwhile e) e' arrivals
    → Settled e e' arrivals
Quiet-Settled a e e' arrivals q s = record {
  completed = s.completed ∙ ap (◌++ ids_with succeeds arrivals) (q.completed e);
  failed = s.failed ∙ ap (◌++ ids_with fails arrivals) (q.failed e);
  counted = omega (arith, s.counted, q.counted e);
  kept = s.kept ∙ q.kept e;
}

settle_all-Settled :
    (arrivals : List Arrival) (e : WorkflowExecution)
    → All Quiet arrivals
    → Settled e (settle_all arrivals e) arrivals
unfolding settle_all
settle_all-Settled [] e q = Settled-none e
settle_all-Settled (a ∷ arrivals) e q =
    Settled-trans e (settle a.step_id a.attempt (a.meanwhile e)) _ (a ∷ []) arrivals
      (Quiet-Settled a e _ (a ∷ []) q.0
        (settle-Settled a.step_id a.attempt a.meanwhile (a.meanwhile e)))
      (settle_all-Settled arrivals _ q.1)

-- What does not depend on the order of the ends.
pub record SameUpToOrder (r s : Outcome × WorkflowExecution) : Type 0 where
  pub completed : Perm r.1.completed_steps s.1.completed_steps
  pub failed : Perm r.1.failed_steps s.1.failed_steps
  pub counted : r.1.failure_count ≡ s.1.failure_count
  pub outcome : (r.0 ≡ returns) ↔ (s.0 ≡ returns)

continues-same :
    (e f : WorkflowExecution)
    → e.metadata ≡ f.metadata
    → e.failure_count ≡ f.failure_count
    → should_continue_on_failure e ≡ should_continue_on_failure f
unfolding should_continue_on_failure
continues-same e f m c = rw (m, c) refl

parallel_end-kept : (b : Bool) (e : WorkflowExecution) → (parallel_end b e).1 ≡ e
parallel_end-kept b e = elim (Bool-cases (b && not (should_continue_on_failure e))) [
  | inl p ↦ rw p refl
  | inr p ↦ rw p refl
]

parallel_end-returns :
    (b : Bool) (e : WorkflowExecution)
    → ((parallel_end b e).0 ≡ returns) ↔ ((b && not (should_continue_on_failure e)) ≡ false)
parallel_end-returns b e = elim (Bool-cases (b && not (should_continue_on_failure e))) [
  | inl p ↦ rw p ((λ h. cc h), λ h. cc h)
  | inr p ↦ rw p ((λ h. refl), λ h. refl)
]

parallel_end-SameUpToOrder :
    (b : Bool) (e f : WorkflowExecution)
    → Perm e.completed_steps f.completed_steps
    → Perm e.failed_steps f.failed_steps
    → e.failure_count ≡ f.failure_count
    → e.metadata ≡ f.metadata
    → SameUpToOrder (parallel_end b e) (parallel_end b f)
parallel_end-SameUpToOrder b e f c d n m =
    let i = parallel_end-kept b e in
    let j = parallel_end-kept b f in
    let go = continues-same e f m n in
    record {
      completed = rw (i, j) c;
      failed = rw (i, j) d;
      counted = rw (i, j) n;
      outcome =
          subst
            (λ k.
              ((parallel_end b e).0 ≡ returns) ↔ ((b && not k) ≡ false)
              → ((parallel_end b e).0 ≡ returns) ↔ ((parallel_end b f).0 ≡ returns))
            (sym go)
            (λ h. (
              (λ p. (parallel_end-returns b f).1 (h.0 p)),
              (λ p. h.1 ((parallel_end-returns b f).0 p)),
            ))
            (parallel_end-returns b e);
    }

ids_with-perm :
    (p : Attempt → Bool) (xs ys : List Arrival) → Perm xs ys → Perm (ids_with p xs) (ids_with p ys)
ids_with-perm p xs ys q =
    Perm.map (λ (a : Arrival). a.step_id) (select-perm (λ (a : Arrival). p a.attempt) xs ys q)

-- If the same calls end in two orders, and between the ends nothing changes the lists of steps, the
-- count of failures and the metadata of the execution, then `runParallel` comes to the same: the
-- same steps are completed and the same steps are failed, up to their order, as many failures are
-- counted, and it returns in one order exactly if it returns in the other.
pub run_parallel-SameUpToOrder :
    (step_ids : List String) (xs ys : List Arrival) (e : WorkflowExecution)
    → Perm xs ys
    → All Quiet xs
    → All Quiet ys
    → SameUpToOrder (run_parallel step_ids xs e) (run_parallel step_ids ys e)
unfolding run_parallel
run_parallel-SameUpToOrder step_ids xs ys e q hx hy =
    let a = settle_all-Settled xs e hx in
    let b = settle_all-Settled ys e hy in
    let done = ids_with-perm succeeds xs ys q in
    let bad = ids_with-perm fails xs ys q in
    elim (Bool-cases (is_cancelled e.state)) [
      | inl p ↦ rw p (parallel_end-SameUpToOrder _ e e (Perm.refl _) (Perm.refl _) refl refl)
      | inr p ↦
          rw (p, some_of-perm (λ (i : Arrival). is_rejected i.attempt) xs ys q)
            (parallel_end-SameUpToOrder _ (settle_all xs e) (settle_all ys e)
              (rw (a.completed, b.completed) (Perm.append_left e.completed_steps done))
              (rw (a.failed, b.failed) (Perm.append_left e.failed_steps bad))
              (omega (arith, a.counted, b.counted, length-perm _ _ bad)) (a.kept ∙ sym b.kept))
    ]
