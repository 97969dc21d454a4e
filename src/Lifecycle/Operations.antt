-- ===== src/Lifecycle/Operations.antt =====
-- The methods of AgentLifecycleManager. Each returns the manager after the call and the exception,
-- or none. A call runs from its start to its end before the next one starts.
use nexus_ai_workspace.Common.{String, Option, none, some, ◌||◌, if◌then◌else◌}
use nexus_ai_workspace.Common.Map.{has, delete}
use nexus_ai_workspace.Lifecycle.State.{
  AgentLifecycleState, Agents, AgentLifecycleManager, LifecycleError, registered, initializing,
  ready, running, paused, stopping, stopped, failed, is_valid_transition, is_paused, is_running,
  agent_not_found, invalid_state_transition, agent_error, agent_lifecycle, get_agent_state,
  set_state,
}

abbrev pub Manager : Type 0 → Type 0
Manager World = AgentLifecycleManager World

abbrev pub Result : Type 0 → Type 0
Result World = Manager World × Option LifecycleError

module _ {World : Type 0} where
  -- The statements after one that may throw.
  abbrev pub and_then : Result World → (Manager World → Result World) → Result World
  and_then (m, none) next = next m
  and_then (m, some e) next = (m, some e)

  -- The `catch` around an agent's method: the agent fails.
  abbrev pub agent_failed : Manager World → String → String → String → Result World
  agent_failed m id operation problem =
      (set_state m id failed, some (agent_lifecycle id operation (agent_error problem)))

  -- The end of a `try` block that goes on to the state `s` once the agent's method has returned.
  abbrev pub finish_in :
      Manager World → String → String → AgentLifecycleState → World × Option String → Result World
  finish_in m id operation s (w, none) = (set_state (record m { world = w }) id s, none)
  finish_in m id operation s (w, some problem) =
      agent_failed (record m { world = w }) id operation problem

  -- The end of a `try` block that stays in the state that it has set.
  abbrev pub finish : Manager World → String → String → World × Option String → Result World
  finish m id operation (w, none) = (record m { world = w }, none)
  finish m id operation (w, some problem) =
      agent_failed (record m { world = w }) id operation problem

  abbrev pub with_initial_state : Manager World → String → Manager World
  with_initial_state m id = if has id m.agent_states then m else set_state m id registered

  abbrev pub rethrown : String → String → Result World → Result World
  rethrown id operation (m, none) = (m, none)
  rethrown id operation (m, some e) = (m, some (agent_lifecycle id operation e))

  -- The test of the transition from the current state to `to`.
  abbrev pub guarded : Manager World → String → AgentLifecycleState → Result World → Result World
  guarded m id to next =
      let current = get_agent_state m id in
      if is_valid_transition current to
      then next
      else (m, some (invalid_state_transition id current to))

  abbrev pub shut : Manager World → World × Option String → Result World
  shut m (w, none) = (record m { world = w }, none)
  shut m (w, some problem) = (record m { world = w }, some (agent_error problem))

  -- The `catch` of `shutdown`, and its last statement.
  abbrev pub forgotten : String → Result World → Result World
  forgotten id (m, none) = (record m { agent_states = delete id m.agent_states }, none)
  forgotten id (m, some e) = (set_state m id failed, some (agent_lifecycle id "shutdown" e))

  module _ (agents : Agents World) where
    unfoldable pub initialize : Manager World → String → Result World
    initialize m id =
        if agents.find m.world id
        then (let m' = with_initial_state m id in
            let started = set_state m' id initializing in
            guarded m' id initializing
              (finish_in started id "initialize" ready (agents.initialize started.world id)))
        else (m, some (agent_not_found id))

    unfoldable pub start : Manager World → String → Result World
    start m id =
        if agents.find m.world id
        then (let started = set_state m id running in
            let status =
              if is_paused (get_agent_state m id) then agents.status m.world id else "running" in
            guarded m id running
              (finish started id "start" (agents.update_status started.world id status)))
        else (m, some (agent_not_found id))

    unfoldable pub stop : Manager World → String → Result World
    stop m id =
        if agents.find m.world id
        then (let started = set_state m id stopping in
            guarded m id stopping (
              finish_in started id "stop" stopped
                (agents.update_status started.world id "stopped")))
        else (m, some (agent_not_found id))

    unfoldable pub pause : Manager World → String → Result World
    pause m id =
        if agents.find m.world id
        then (let started = set_state m id paused in
            guarded m id paused
              (finish started id "pause" (agents.update_status started.world id "paused")))
        else (m, some (agent_not_found id))

    unfoldable pub resume : Manager World → String → Result World
    resume m id =
        let current = get_agent_state m id in
        if is_paused current
        then start m id
        else (m, some (invalid_state_transition id current running))

    -- A running or paused agent is stopped first.
    abbrev pub stop_if_running : Manager World → String → Result World
    stop_if_running m id =
        let current = get_agent_state m id in
        if is_running current || is_paused current then stop m id else (m, none)

    unfoldable pub restart : Manager World → String → Result World
    restart m id =
        rethrown id "restart"
          (and_then (and_then (stop_if_running m id) (λ m'. initialize m' id)) (λ m'. start m' id))

    unfoldable pub shutdown : Manager World → String → Result World
    shutdown m id =
        if agents.find m.world id
        then forgotten id
            (and_then (stop_if_running m id) (λ m'. shut m' (agents.shutdown m'.world id)))
        else (m, some (agent_not_found id))

    -- The state of an agent that exists.
    unfoldable pub get_state : Manager World → String → Option AgentLifecycleState
    get_state m id = if agents.find m.world id then some (get_agent_state m id) else none
