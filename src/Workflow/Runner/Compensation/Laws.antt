-- ===== src/Workflow/Runner/Compensation/Laws.antt =====
-- `runCompensation` of WorkflowRunner: the order of the compensations, and what it notes.
use nexus_ai_workspace.Common.{
  All, String, ◌≡◌, refl, sym, ap, ◌∙◌, Bool, not, List, [], ◌∷◌, ◌++◌, Option, none, some, select,
  reverse, Bool-cases, inl, inr, if◌then◌else◌, map,
}
use mathlib.Core.List.{reverse_aux, append_assoc, append-nil}
use nexus_ai_workspace.Workflow.Execution.{WorkflowExecution, Thrown}
use nexus_ai_workspace.Workflow.Runner.{Executor, returns, throws}
use nexus_ai_workspace.Workflow.Runner.Compensation.{note_error, compensate, run_compensation}

-- A call of `compensateStep` for the step returns if `good` says so, throws the step's problem if
-- not, and leaves the execution as it is.
abbrev pub CompensationEnds :
    {World : Type 0} → Executor World → (String → Bool) → (String → Thrown) → String → Type 0
CompensationEnds {World} executor good problem id =
    (e : WorkflowExecution) (w : World)
    → (w' : World) × (executor.compensate_step id (e, w)
        ≡ ((if good id then returns else throws (problem id)), (e, w')))

-- The errors noted so far.
abbrev pub noted : Option (List (String × Thrown)) → List (String × Thrown)
noted none = []
noted (some errors) = errors

noted-note_error :
    (id : String) (t : Thrown) (o : Option (List (String × Thrown)))
    → noted (note_error id t o) ≡ noted o ++ (id, t) ∷ []
noted-note_error id t none = refl
noted-note_error id t (some errors) = refl

pub record Compensated (e e' : WorkflowExecution) (done : List String)
    (problems : List (String × Thrown)) : Type 0 where
  pub compensated : e'.compensated_steps ≡ e.compensated_steps ++ done
  pub errors :
      noted e'.metadata.compensation_errors ≡ noted e.metadata.compensation_errors ++ problems

All-reverse_aux :
    (P : String → Type 0) (xs ys : List String) → All P xs → All P ys → All P (reverse_aux xs ys)
All-reverse_aux P [] ys h k = k
All-reverse_aux P (x ∷ xs) ys h k = All-reverse_aux P xs (x ∷ ys) h.1 (h.0, k)

module _ {World : Type 0} (executor : Executor World) (good : String → Bool)
    (problem : String → Thrown) where
  compensate-Compensated :
      (ids : List String) (e : WorkflowExecution) (w : World)
      → All (CompensationEnds executor good problem) ids
      → Compensated e
          (compensate executor ids (e, w)).0
          (select good ids)
          (map (λ i. (i, problem i)) (select (λ i. not (good i)) ids))
  unfolding compensate
  compensate-Compensated [] e w all = record {
    compensated = sym (append-nil _);
    errors = sym (append-nil _);
  }
  compensate-Compensated (i ∷ ids) e w all =
      let (w', runs) = all.0 e w in
      elim (Bool-cases (good i)) [
        | inl g ↦
            let ih =
              compensate-Compensated ids
                (record e { compensated_steps = e.compensated_steps ++ i ∷ [] }) w' all.1 in
            rw (compensate, runs, g)
              (record {
                compensated = ih.compensated ∙ append_assoc e.compensated_steps (i ∷ []) _;
                errors = ih.errors;
              })
        | inr g ↦
            let e' = record e {
              metadata = record e.metadata {
                compensation_errors = note_error i (problem i) e.metadata.compensation_errors;
              };
            } in
            let ih = compensate-Compensated ids e' w' all.1 in
            rw (compensate, runs, g)
              (record {
                compensated = ih.compensated;
                errors =
                    ih.errors
                    ∙ ap (◌++ map (λ j. (j, problem j)) (select (λ j. not (good j)) ids))
                        (noted-note_error i (problem i) e.metadata.compensation_errors)
                    ∙ append_assoc (noted e.metadata.compensation_errors) ((i, problem i) ∷ []) _;
              })
      ]

  -- Suppose that each call of `compensateStep` for the listed steps leaves the execution as it is,
  -- and that the step alone decides whether it returns or throws, and what. Then `runCompensation`
  -- compensates the steps from the last to the first and does not stop at an error: every step
  -- whose compensation returns is noted as compensated, every other one is noted with its error,
  -- both in that order.
  pub run_compensation-Compensated :
      (ids : List String) (e : WorkflowExecution) (w : World)
      → All (CompensationEnds executor good problem) ids
      → Compensated e
          (run_compensation executor ids (e, w)).0
          (select good (reverse ids))
          (map (λ i. (i, problem i)) (select (λ i. not (good i)) (reverse ids)))
  unfolding run_compensation
  run_compensation-Compensated ids e w all =
      compensate-Compensated (reverse ids) e w (All-reverse_aux _ ids [] all tt)
