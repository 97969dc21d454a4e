-- ===== src/Scheduler/Selection.antt =====
-- Which task `dequeue` returns under each strategy.
use nexus_ai_workspace.Common.{
  ℕ, String, ◌≡◌, refl, sym, ap, subst, ◌∙◌, List, [], ◌∷◌, ◌++◌, some, All, All-map, fun_ext, ◌⊎◌,
  inl, inr, arith, ◌≤◌, ◌+◌, CutAt, Least, min_index-Least, IsSorted, ◌===◌, if◌then◌else◌,
}
use mathlib.Core.List.{Perm, perm_middle}
use nexus_ai_workspace.Common.Map.{Map, get, set, get-set}
use nexus_ai_workspace.Priority.{priority_order}
use nexus_ai_workspace.Scheduler.State.{
  AgentScheduler, Heap, RunningTaskInfo, SchedulingStrategy, priority, fifo, fair, dependency,
}
use nexus_ai_workspace.Scheduler.Queues.{promote_waiting_tasks, more_urgent}
use nexus_ai_workspace.Scheduler.Choice.{created_at, agent_count, agent_counts, count_or_zero}
use nexus_ai_workspace.Scheduler.Operations.{dequeue, start_task}
use nexus_ai_workspace.Scheduler.Invariant.{IsValid, promote-IsValid}
use nexus_ai_workspace.Scheduler.Scheduling.{chosen_index, dequeue_cases, refused, nothing, starts}

-- How many of the running tasks belong to the agent.
abbrev pub running_of : Heap → String → Map RunningTaskInfo → ℕ
running_of h agent [] = 0
running_of h agent ((k, info) ∷ m) =
    let rest = running_of h agent m in if (h info.task).agent_id === agent then rest + 1 else rest

agent_counts-running_of :
    (h : Heap) (agent : String) (m : Map RunningTaskInfo) (counts : Map ℕ)
    → count_or_zero (get agent (agent_counts h m counts))
      ≡ count_or_zero (get agent counts) + running_of h agent m
unfolding agent_counts
agent_counts-running_of h agent [] counts = omega arith
agent_counts-running_of h agent ((k, info) ∷ m) counts =
    let a = (h info.task).agent_id in
    let n = count_or_zero (get a counts) + 1 in
    ground (arith, agent_counts-running_of h agent m (set a n counts), get-set a agent n counts)

agent_count-eq-running_of :
    (s : AgentScheduler)
    → agent_count s ≡ (λ r. running_of s.heap (s.heap r).agent_id s.running_tasks_map)
unfolding get
agent_count-eq-running_of s =
    fun_ext
      λ r. omega (arith, agent_counts-running_of s.heap (s.heap r).agent_id s.running_tasks_map [])

-- What a strategy minimises.
abbrev pub cost_of : SchedulingStrategy → AgentScheduler → ℕ → ℕ
cost_of priority s r = priority_order (s.heap r).priority
cost_of fifo s r = (s.heap r).metrics.created_at
cost_of fair s r = running_of s.heap (s.heap r).agent_id s.running_tasks_map
cost_of dependency s r = priority_order (s.heap r).priority

first-Least :
    (h : Heap) (x : ℕ) (xs : List ℕ)
    → IsSorted (more_urgent h) (x ∷ xs)
    → Least (λ r. priority_order (h r).priority) (x ∷ xs) 0
first-Least h x xs s = (x, refl, (omega arith, All-map _ _ xs (λ y e. ground arith) s.0))

chosen-Least :
    (k : SchedulingStrategy) (s : AgentScheduler) (x : ℕ) (xs : List ℕ)
    → s.priority_queue ≡ x ∷ xs
    → IsSorted (more_urgent s.heap) (x ∷ xs)
    → Least (cost_of k s) (x ∷ xs) (chosen_index k s)
chosen-Least priority s x xs e sorted = first-Least s.heap x xs sorted
chosen-Least fifo s x xs e sorted = rw e (min_index-Least (created_at s.heap) x xs)
chosen-Least fair s x xs e sorted =
    rw (e, agent_count-eq-running_of s) (min_index-Least (cost_of fair s) x xs)
chosen-Least dependency s x xs e sorted = first-Least s.heap x xs sorted

List-cases : (xs : List ℕ) → (xs ≡ []) ⊎ ((y : ℕ) × (ys : List ℕ) × (xs ≡ y ∷ ys))
List-cases [] = inl refl
List-cases (y ∷ ys) = inr (y, ys, refl)

cut-Least :
    (k : SchedulingStrategy) (s : AgentScheduler)
    → IsSorted (more_urgent s.heap) s.priority_queue
    → (c : CutAt (chosen_index k s) s.priority_queue)
    → All (λ q. cost_of k s c.item ≤ cost_of k s q) s.priority_queue
cut-Least k s sorted c = elim (List-cases s.priority_queue) [
  | inl e ↦ let h = rw e at c.at in cc
  | inr (x, xs, e) ↦
      let (z, at, least) = chosen-Least k s x xs e (rw e at sorted) in
      let same : z ≡ c.item = let h = rw e at c.at in cc in
      subst (All (λ q. cost_of k s c.item ≤ cost_of k s q)) (sym e)
        (subst (λ y. All (λ q. cost_of k s y ≤ cost_of k s q) (x ∷ xs)) same least)
]

module _ (s : AgentScheduler) (now r : ℕ) (t : AgentScheduler) (v : IsValid s)
    (taken : dequeue s now ≡ (t, some r)) where
  -- The task that `dequeue` returns in a valid scheduler has the least cost among the tasks that
  -- stand in the priority queue once the waiting tasks are promoted: for the strategies PRIORITY
  -- and DEPENDENCY the most urgent priority, for FIFO the earliest creation, for FAIR the fewest
  -- running tasks of its agent. The priority queue loses this task and no other, and the waiting
  -- queue loses none.
  pub dequeue-Least :
      let p = promote_waiting_tasks s in
      All (λ q. cost_of s.strategy p r ≤ cost_of s.strategy p q) p.priority_queue
      × Perm p.priority_queue (r ∷ t.priority_queue)
      × (t.waiting_queue ≡ p.waiting_queue)
  unfolding start_task
  dequeue-Least =
      let p = promote_waiting_tasks s in
      elim (dequeue_cases s now) [
        | refused e d ↦ cc
        | nothing e left d ↦ cc
        | starts e c d ↦
            let eq = sym d ∙ taken in
            let same : c.item ≡ r = let h = ap (λ x. x.1) eq in cc in
            let rest = ap (λ x. x.0.priority_queue) eq in
            let least = cut-Least s.strategy p (promote-IsValid s v).queued.sorted c in
            (
              subst
                  (λ y. All (λ q. cost_of s.strategy p y ≤ cost_of s.strategy p q) p.priority_queue)
                  same least,
              subst (λ l. Perm p.priority_queue (r ∷ l)) rest
                  (subst (λ y. Perm p.priority_queue (y ∷ (c.before ++ c.after))) same
                    (subst (λ l. Perm l (c.item ∷ (c.before ++ c.after))) (sym c.split)
                      (perm_middle c.before c.after))),
              sym (ap (λ x. x.0.waiting_queue) eq),
            )
      ]
