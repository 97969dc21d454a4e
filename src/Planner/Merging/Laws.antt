-- ===== src/Planner/Merging/Laws.antt =====
-- The subtasks of a task, and the tasks of a merged plan.
use nexus_ai_workspace.Common.{
  String, ◌≡◌, refl, ap, ◌∙◌, List, [], ◌∷◌, ◌⊎◌, inl, inr, ◌+◌, ◌*◌, ◌≤◌, All, length, arith,
  Bool-cases, is_some, some_of-perm, ◌===◌, ◌||◌,
}
use nexus_ai_workspace.Common.Map.{Map, get, set, values, Entries, Entries-set, get-set}
use nexus_ai_workspace.Task.{AgentTask}
use nexus_ai_workspace.Task.Builder
use nexus_ai_workspace.Planner.{task_map}
use nexus_ai_workspace.Planner.Groups.{is_member}
use nexus_ai_workspace.Planner.Plan.{AgentPlan}
use nexus_ai_workspace.Planner.Planning.{PlannerError, prioritize}
use nexus_ai_workspace.Planner.Planning.Sorting.{prioritize-sorts}
use nexus_ai_workspace.Planner.Merging.{TaskSplitResult, all_tasks, merged_tasks}

-- A subtask works for the same agent and request on the same input, and has a third of the time,
-- rounded up.
pub record IsSubtask (parent t : AgentTask) : Type 0 where
  pub agent : t.agent_id ≡ parent.agent_id
  pub request : t.request_id ≡ parent.request_id
  pub type : t.type ≡ parent.type
  pub priority : t.priority ≡ parent.priority
  pub input : t.input ≡ parent.input
  pub enough : parent.timeout_ms ≤ 3 * t.timeout_ms
  pub tight : 3 * t.timeout_ms ≤ parent.timeout_ms + 2

-- The call returns, with the property.
abbrev pub Returns {ℓ} : {R : Type ℓ} → (R → Type 0) → PlannerError ⊎ R → Type 0
Returns P (inl e) = ⊥
Returns P (inr x) = P x

-- The subtasks of a task, one for each of the parts.
abbrev AreSubtasks : AgentTask → List (String × String) → List AgentTask → Type 0
AreSubtasks parent ps ts = All (IsSubtask parent) ts × (length ts ≡ length ps)

-- The result of a split.
abbrev pub IsSplit : AgentTask → List (String × String) → TaskSplitResult → Type 0
IsSplit task ps s =
    All (IsSubtask task) s.subtasks
    × (length s.subtasks ≡ length ps)
    × (s.original_task_id ≡ task.task_id)

IsOwn : String → AgentTask → Type 0
IsOwn k t = t.task_id ≡ k

get-task_map :
    (k : String) (ts : List AgentTask) (m : Map AgentTask)
    → is_some (get k (task_map ts m)) ≡ (is_member ts k || is_some (get k m))
unfolding task_map
get-task_map k [] m = refl
get-task_map k (t ∷ ts) m =
    get-task_map k ts (set t.task_id t m)
    ∙ rw (get-set t.task_id k t m)
        (elim (Bool-cases (t.task_id === k)) [ inl p ↦ rw p (ground arith) | inr p ↦ rw p refl ])

task_map-IsOwn :
    (ts : List AgentTask) (m : Map AgentTask) → Entries IsOwn m → Entries IsOwn (task_map ts m)
unfolding task_map IsOwn
task_map-IsOwn [] m h = h
task_map-IsOwn (t ∷ ts) m h =
    task_map-IsOwn ts (set t.task_id t m) (Entries-set IsOwn t.task_id t m refl h)

is_member-values :
    (k : String) (m : Map AgentTask) → Entries IsOwn m → is_member (values m) k ≡ is_some (get k m)
unfolding get IsOwn
is_member-values k [] h = refl
is_member-values k ((j, t) ∷ m) h =
    let same : (t.task_id === k) ≡ (j === k) = ap (λ i. i === k) h.0 in
    elim (Bool-cases (j === k)) [
      | inl p ↦ rw (same, p) refl
      | inr p ↦ rw (same, p) (is_member-values k m h.1)
    ]

-- The merged tasks have exactly the ids of the tasks of the plans.
pub merged_tasks-is_member :
    (plans : List AgentPlan) (id : String)
    → is_member (merged_tasks plans) id ≡ is_member (all_tasks plans) id
unfolding merged_tasks get
merged_tasks-is_member plans id =
    let m = task_map (all_tasks plans) [] in
    some_of-perm (λ (t : AgentTask). t.task_id === id) (prioritize (values m)) (values m)
      (prioritize-sorts (values m)).0
    ∙ is_member-values id m (task_map-IsOwn (all_tasks plans) [] tt)
    ∙ get-task_map id (all_tasks plans) []
    ∙ ground arith
