-- ===== src/Lifecycle/Examples.antt =====
-- One agent, "a", whose methods return or throw as the world says.
use nexus_ai_workspace.Common.{
  String, String_discrete, true, List, [], ◌∷◌, none, some, ◌≡◌, ◌↔◌, ◌⊎◌, refl, ◌===◌,
  if◌then◌else◌,
}
use nexus_ai_workspace.Common.Map.{get, set, Distinct}
use nexus_ai_workspace.Lifecycle.State.{
  Agents, AgentLifecycleManager, ready, paused, is_paused, create, get_agent_state, set_state,
  is_valid_transition,
}
use nexus_ai_workspace.Lifecycle.Operations.{initialize, start, stop, shutdown}
use nexus_ai_workspace.Lifecycle.History.{Method, initializes, step, run, lifecycle_run-at_rest}
use nexus_ai_workspace.Lifecycle.Effects.{at_rest}
use nexus_ai_workspace.Lifecycle.Outcomes.{start_iff}

-- The world holds the status of "a".
abbrev lone_agent : Agents String
lone_agent = record {
  find = λ w id. id === "a";
  initialize = λ w id. (w, none);
  status = λ w id. w;
  update_status = λ w id s. (s, none);
  shutdown = λ w id. (w, none);
}

abbrev calls : List (Method × String)
calls = (initializes, "a") ∷ []

abbrev manager : AgentLifecycleManager String
manager = run lone_agent (create "idle") calls

manager_ready : get "a" manager.agent_states ≡ some ready
unfolding String_discrete run step create initialize get set set_state get_agent_state
    is_valid_transition
manager_ready = refl

a_found : lone_agent.find manager.world "a" ≡ true
unfolding String_discrete
a_found = refl

lifecycle_run-at_rest_example :
    at_rest (get_agent_state (run lone_agent (create "idle") calls) "a") ≡ true
lifecycle_run-at_rest_example = lifecycle_run-at_rest lone_agent "idle" calls "a"

start_iff_example : ((start lone_agent manager "a").1 ≡ none) ↔ (
    (lone_agent.find manager.world "a" ≡ true)
    × ((get_agent_state manager "a" ≡ ready) ⊎ (get_agent_state manager "a" ≡ paused))
    × ((lone_agent.update_status manager.world "a" (
          if is_paused (get_agent_state manager "a")
          then lone_agent.status manager.world "a"
          else "running")).1
        ≡ none))
start_iff_example = start_iff lone_agent manager "a"

manager_distinct : Distinct manager.agent_states
unfolding String_discrete run step create initialize get set set_state get_agent_state
    is_valid_transition
manager_distinct = (refl, tt)

shutdown_returns : (shutdown lone_agent manager "a").1 ≡ none
unfolding String_discrete run step create initialize get set set_state get_agent_state
    is_valid_transition shutdown stop
shutdown_returns = refl
