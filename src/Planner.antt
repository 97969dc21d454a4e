-- ===== src/Planner.antt =====
-- backend/services/ai-kernel/src/agents/planner/agent-planner.ts: the order of the tasks of a plan.
-- `visit` counts its nested calls down, from one more than the number of tasks.
pub mod Order
pub mod Groups
pub mod Plan
pub mod Planning
pub mod Checking
pub mod Merging
pub mod Examples
use nexus_ai_workspace.Common.{
  ℕ, zero, suc, String, Bool, true, false, List, [], ◌∷◌, ◌++◌, Option, none, some, length,
  includes, add_to_set, remove_from_set, if◌then◌else◌,
}
use nexus_ai_workspace.Common.Map.{Map, get, set}
use nexus_ai_workspace.Task.{AgentTask, TaskDependency}

-- The local sets of `topologicalSort`, and its result so far.
pub record Walk : Type 0 where
  pub visited : List String
  pub visiting : List String
  pub result : List String

-- How a visit ends: it returns, throws "Circular dependency detected", or has used up its count.
pub data Visit : Type 0 where
  done : Walk → Visit
  circular : Visit
  out_of_fuel : Visit

unfoldable pub task_map : List AgentTask → Map AgentTask → Map AgentTask
task_map [] m = m
task_map (t ∷ ts) m = task_map ts (set t.task_id t m)

abbrev pub dependencies_of : Option AgentTask → List TaskDependency
dependencies_of none = []
dependencies_of (some t) = t.dependencies

-- The end of `visit`.
abbrev pub leave : String → Visit → Visit
leave id (done w) = done (record {
  visited = add_to_set id w.visited;
  visiting = remove_from_set id w.visiting;
  result = w.result ++ id ∷ [];
})
leave id circular = circular
leave id out_of_fuel = out_of_fuel

abbrev pub and_visit : Visit → (Walk → Visit) → Visit
and_visit (done w) next = next w
and_visit circular next = circular
and_visit out_of_fuel next = out_of_fuel

abbrev pub visit_dependencies : (String → Walk → Visit) → List TaskDependency → Walk → Visit
visit_dependencies f [] w = done w
visit_dependencies f (d ∷ ds) w = and_visit (f d.task_id w) (visit_dependencies f ds)

unfoldable pub visit : ℕ → Map AgentTask → String → Walk → Visit
visit zero tasks id w = out_of_fuel
visit (suc n) tasks id w =
    let inner =
      visit_dependencies (visit n tasks) (dependencies_of (get id tasks))
        (record w { visiting = add_to_set id w.visiting }) in
    if includes id w.visited
    then done w
    else if includes id w.visiting
    then circular
    else leave id inner

abbrev pub visit_tasks : (String → Walk → Visit) → List AgentTask → Walk → Visit
visit_tasks f [] w = done w
visit_tasks f (t ∷ ts) w = and_visit (f t.task_id w) (visit_tasks f ts)

unfoldable pub topological_sort : List AgentTask → Visit
topological_sort tasks =
    let m = task_map tasks [] in
    visit_tasks (visit (suc (length m)) m) tasks
      (record { visited = []; visiting = []; result = [] })

unfoldable pub has_circular_dependencies : List AgentTask → Bool
has_circular_dependencies tasks = elim (topological_sort tasks) [
  | done w ↦ false
  | circular ↦ true
  | out_of_fuel ↦ true
]
