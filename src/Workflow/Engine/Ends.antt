-- ===== src/Workflow/Engine/Ends.antt =====
-- How the executions of WorkflowEngine end.
use nexus_ai_workspace.Common.{
  ℕ, String, ◌≡◌, refl, ap, ◌∙◌, Bool, true, false, Option, some, Bool-cases, inl, inr, ===_refl,
  List,
}
use nexus_ai_workspace.Common.Map.{get, has, get-set}
use nexus_ai_workspace.Values.{Value}
use nexus_ai_workspace.Workflow.{
  WorkflowState, WorkflowDefinition, WorkflowExecutionMode, sequential_mode, parallel_mode,
  mixed_mode, running, paused, failed, completed, cancelled, created, validated,
}
use nexus_ai_workspace.Workflow.Execution.{
  WorkflowExecution, WorkflowExecutionContext, Thrown, is_running, is_paused,
}
use nexus_ai_workspace.Workflow.Runner.{Held, returns, throws}
use nexus_ai_workspace.Workflow.Engine.{WorkflowEngine, Runner, Run}
use nexus_ai_workspace.Workflow.Engine.Steps.{RunnerKeeps}
use nexus_ai_workspace.Workflow.Engine.Operations.{
  Executed, executed, threw_with, mutate, by_mode, new_execution, closed, with_output, written,
  failed_with, compensated, finish, start, execute_workflow_steps, execute, resume, cancel, pause,
}

-- The execution has this id, and the engine has an entry for it.
abbrev pub IsStored : String → Held WorkflowEngine → Type 0
IsStored id h = (h.0.execution_id ≡ id) × (has id h.1.executions ≡ true)

-- No call of the runner takes the execution out of the engine's map or changes its id; and the
-- compensations leave its state and its end as they are.
pub record KeepsStored (runner : Runner) (id : String) : Type 0 where
  pub steps : RunnerKeeps (IsStored id) runner
  pub compensation :
      (ids : List String) (h : Held WorkflowEngine)
      → IsStored id h
      → IsStored id (runner.compensation ids h)
  pub state :
      (ids : List String) (h : Held WorkflowEngine)
      → (runner.compensation ids h).0.state ≡ h.0.state
  pub completed_at :
      (ids : List String) (h : Held WorkflowEngine)
      → (runner.compensation ids h).0.completed_at ≡ h.0.completed_at

get-mutate :
    (id : String) (e : WorkflowExecution) (engine : WorkflowEngine)
    → IsStored id (e, engine)
    → get id (mutate e engine).executions ≡ some e
get-mutate id e engine (same, stored) =
    let here : has e.execution_id engine.executions ≡ true =
      ap (λ k. has k engine.executions) same ∙ stored in
    rw here (rw (get-set e.execution_id id e engine.executions, same, ===_refl id) refl)

-- The engine holds the execution under the id, closed at the time `later`.
abbrev pub Holds : String → WorkflowExecution → ℕ → WorkflowEngine → Type 0
Holds id e later engine = (get id engine.executions ≡ some e) × (e.completed_at ≡ some later)

-- `execute` returns an execution that is not running any more, or throws and leaves one that
-- failed.
abbrev pub EndsExecution : String → ℕ → Executed → Type 0
EndsExecution id later (executed e engine) = Holds id e later engine × (is_running e.state ≡ false)
EndsExecution id later (threw_with t engine) =
    (e : WorkflowExecution) × Holds id e later engine × (e.state ≡ failed)

with_output-not_running :
    (engine : WorkflowEngine) (e : WorkflowExecution)
    → is_running (with_output engine e).state ≡ false
with_output-not_running engine e = elim (Bool-cases (is_running e.state)) [
  | inl p ↦ rw p refl
  | inr p ↦ rw p p
]

with_output-execution_id :
    (engine : WorkflowEngine) (e : WorkflowExecution)
    → (with_output engine e).execution_id ≡ e.execution_id
with_output-execution_id engine e = elim (Bool-cases (is_running e.state)) [
  | inl p ↦ rw p refl
  | inr p ↦ rw p refl
]

module _ (registry : String → Option WorkflowDefinition) (runner : Runner) (id : String)
    (keeps : KeepsStored runner id) where
  compensated-EndsExecution :
      (w : WorkflowDefinition) (t u : Thrown) (later : ℕ) (e : WorkflowExecution)
      (engine : WorkflowEngine)
      → IsStored id (e, engine)
      → EndsExecution id later
          (threw_with u (written (compensated registry runner w (failed_with t later e, engine))))
  compensated-EndsExecution w t u later e engine stored =
      elim (Bool-cases w.failure_policy.compensation_required) [
        | inl p ↦ rw p (
            let failing : Held WorkflowEngine = (failed_with t later e, engine) in
            let h = runner.compensation e.completed_steps failing in
            (
              h.0,
              (
                get-mutate id h.0 h.1 (keeps.compensation e.completed_steps failing stored),
                keeps.completed_at e.completed_steps failing,
              ),
              keeps.state e.completed_steps failing,
            ))
        | inr p ↦ rw p (
          failed_with t later e,
          (get-mutate id (failed_with t later e) engine stored, refl),
          refl,
        )
      ]

  finish-EndsExecution :
      (w : WorkflowDefinition) (workflow_id : String) (later : ℕ) (r : Run)
      → IsStored id r.1
      → EndsExecution id later (finish registry runner w workflow_id id later r)
  finish-EndsExecution w workflow_id later (returns, (e, engine)) (same, stored) = (
    (
      get-mutate id (closed later (with_output engine e)) engine
          (with_output-execution_id engine e ∙ same, stored),
      refl,
    ),
    with_output-not_running engine e,
  )
  finish-EndsExecution w workflow_id later (throws t, (e, engine)) stored =
      compensated-EndsExecution w t t later e engine stored

  by_mode-IsStored :
      (mode : WorkflowExecutionMode) (w : WorkflowDefinition) (h : Held WorkflowEngine)
      → IsStored id h
      → IsStored id (by_mode registry runner mode w h).1
  by_mode-IsStored sequential_mode w h stored = keeps.steps.sequential _ h stored
  by_mode-IsStored parallel_mode w h stored = keeps.steps.parallel _ h stored
  by_mode-IsStored mixed_mode w h stored = keeps.steps.sequential _ h stored

  steps-IsStored :
      (w : WorkflowDefinition) (h : Held WorkflowEngine)
      → IsStored id h
      → IsStored id (execute_workflow_steps registry runner w h).1
  unfolding execute_workflow_steps
  steps-IsStored w h stored = by_mode-IsStored w.execution_mode w h stored

  -- Suppose that no call of the runner takes the execution out of the engine's map or changes its
  -- id, and that the compensations leave its state and its end as they are. Then for a registered
  -- workflow, whatever else its steps do, `execute` returns an execution that is not running any
  -- more, or throws and the execution has failed; either way the engine holds it under its id with
  -- the time of its end.
  pub execute-EndsExecution :
      (w : WorkflowDefinition) (workflow_id : String) (input : Value)
      (context : WorkflowExecutionContext) (now later : ℕ) (engine : WorkflowEngine)
      → registry workflow_id ≡ some w
      → EndsExecution id later
          (execute registry runner workflow_id id input context now later engine)
  unfolding execute new_execution
  execute-EndsExecution w workflow_id input context now later engine r =
      let h = start registry runner w workflow_id id input context now engine in
      let e = new_execution w workflow_id id input context now in
      rw r (
        finish-EndsExecution w workflow_id later (execute_workflow_steps registry runner w h)
          (steps-IsStored w h (refl, rw (get-set id id e engine.executions, ===_refl id) refl)))

abbrev pub is_over : WorkflowState → Bool
is_over failed = true
is_over completed = true
is_over cancelled = true
is_over _ = false

over-not_running :
    (s : WorkflowState) → is_over s ≡ true → (is_running s ≡ false) × (is_paused s ≡ false)
over-not_running failed h = (refl, refl)
over-not_running completed h = (refl, refl)
over-not_running cancelled h = (refl, refl)
over-not_running running h = cc h
over-not_running paused h = cc h
over-not_running created h = cc h
over-not_running validated h = cc h

-- An execution that has failed, is completed or is cancelled stays so: `cancel`, `pause` and
-- `resume` return false for it and change nothing.
pub is_over-stays :
    (registry : String → Option WorkflowDefinition) (runner : Runner) (id : String) (later : ℕ)
    (engine : WorkflowEngine) (e : WorkflowExecution)
    → get id engine.executions ≡ some e
    → is_over e.state ≡ true
    → (cancel id later engine ≡ (false, engine))
      × (pause id engine ≡ (false, engine))
      × (resume registry runner id engine ≡ (false, engine))
unfolding cancel pause resume
is_over-stays registry runner id later engine e g o =
    let n = over-not_running e.state o in rw (g, n.0, n.1) (refl, refl, refl)
