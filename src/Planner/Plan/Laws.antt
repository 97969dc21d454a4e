-- ===== src/Planner/Plan/Laws.antt =====
-- What AgentPlanBuilder builds.
use nexus_ai_workspace.Common.{
  String, ◌≡◌, refl, true, List, [], ◌∷◌, Option, none, some, ◌⊎◌, inl, inr, includes, All,
  Bool-cases,
}
use nexus_ai_workspace.Task.{AgentTask}
use nexus_ai_workspace.Planner.Plan.{
  AgentPlan, AgentPlanBuilder, BuildError, require, unless, ids_of, first_unknown,
  first_unknown_in_groups, or_next, build, order_not_found, group_not_found,
}

-- A call throws, or returns a value with the property.
abbrev pub Built {ℓ} : {E : Type ℓ} {R : Type 0} → (R → Type 0) → E ⊎ R → Type 0
Built P (inl e) = Unit
Built P (inr p) = P p

-- The ids of the order and of the groups are ids of tasks.
abbrev pub AreTasks : List AgentTask → List String → Type 0
AreTasks tasks ids = All (λ id. includes id (ids_of tasks) ≡ true) ids

require-Built {ℓ} :
    {A : Type ℓ} (P : AgentPlan → Type 0) (field : String) (o : Option A)
    (rest : A → BuildError ⊎ AgentPlan)
    → ((x : A) → Built P (rest x))
    → Built P (require field o rest)
require-Built P field none rest h = tt
require-Built P field (some x) rest h = h x

first_unknown-none :
    (known ids : List String)
    → first_unknown known ids ≡ none
    → All (λ id. includes id known ≡ true) ids
unfolding first_unknown
first_unknown-none known [] h = tt
first_unknown-none known (id ∷ ids) h = elim (Bool-cases (includes id known)) [
  | inl p ↦ (p, first_unknown-none known ids (rw p at h))
  | inr p ↦ let h' = rw p at h in cc
]

or_next-none : (a b : Option String) → or_next a b ≡ none → (a ≡ none) × (b ≡ none)
or_next-none none b h = (refl, h)
or_next-none (some x) b h = cc h

first_unknown_in_groups-none :
    (known : List String) (groups : List (List String))
    → first_unknown_in_groups known groups ≡ none
    → All (λ g. All (λ id. includes id known ≡ true) g) groups
unfolding first_unknown_in_groups
first_unknown_in_groups-none known [] h = tt
first_unknown_in_groups-none known (g ∷ gs) h =
    let (here, there) = or_next-none (first_unknown known g) (first_unknown_in_groups known gs) h in
    (first_unknown-none known g here, first_unknown_in_groups-none known gs there)

unless-Built :
    (P : AgentPlan → Type 0) (o : Option String) (e : String → BuildError)
    (rest : BuildError ⊎ AgentPlan)
    → (o ≡ none → Built P rest)
    → Built P (unless o e rest)
unless-Built P none e rest h = h refl
unless-Built P (some id) e rest h = tt

-- What a plan takes over from its builder.
pub record IsFrom (b : AgentPlanBuilder) (p : AgentPlan) : Type 0 where
  pub tasks : p.tasks ≡ b.tasks
  pub order : p.task_order ≡ b.task_order
  pub groups : p.parallel_groups ≡ b.parallel_groups
  pub metrics : p.metrics ≡ b.metrics
  pub order_known : AreTasks b.tasks b.task_order
  pub groups_known : All (AreTasks b.tasks) b.parallel_groups

-- A plan that `build` returns has the tasks, the order, the groups and the metrics of its builder,
-- and every id in its order and in its groups is the id of one of its tasks.
pub build-IsFrom : (b : AgentPlanBuilder) → Built (IsFrom b) (build b)
unfolding build
build-IsFrom b = require-Built (IsFrom b) _ b.plan_id _ (λ a.
    require-Built (IsFrom b) _ b.agent_id _ (λ c. require-Built (IsFrom b) _ b.workspace_id _ (λ d.
      require-Built (IsFrom b) _ b.request_id _ (λ e. require-Built (IsFrom b) _ b.trace_id _ (λ f.
        require-Built (IsFrom b) _ b.name _ (λ g. require-Built (IsFrom b) _ b.state _ (λ h.
          require-Built (IsFrom b) _ b.priority _ (λ i.
            unless-Built (IsFrom b) (first_unknown (ids_of b.tasks) b.task_order) order_not_found _
              (λ j.
                unless-Built (IsFrom b) (first_unknown_in_groups (ids_of b.tasks) b.parallel_groups)
                  group_not_found _
                  (λ k. record {
                    tasks = refl;
                    order = refl;
                    groups = refl;
                    metrics = refl;
                    order_known = first_unknown-none (ids_of b.tasks) b.task_order j;
                    groups_known =
                        first_unknown_in_groups-none (ids_of b.tasks) b.parallel_groups k;
                  }))))))))))
