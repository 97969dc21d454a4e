-- ===== src/Lifecycle/State.antt =====
-- The state of AgentLifecycleManager, its table of transitions, and what it needs from the agents.
use nexus_ai_workspace.Common.{String, Bool, true, false, [], Option, none, some}
use nexus_ai_workspace.Common.Map.{Map, get, set}

pub data AgentLifecycleState : Type 0 where
  registered initializing ready running paused stopping stopped failed : AgentLifecycleState

-- `validTransitions`
unfoldable pub is_valid_transition : AgentLifecycleState → AgentLifecycleState → Bool
is_valid_transition registered initializing = true
is_valid_transition initializing ready = true
is_valid_transition initializing failed = true
is_valid_transition ready running = true
is_valid_transition ready stopping = true
is_valid_transition running paused = true
is_valid_transition running stopping = true
is_valid_transition paused running = true
is_valid_transition paused stopping = true
is_valid_transition stopping stopped = true
is_valid_transition stopping failed = true
is_valid_transition stopped initializing = true
is_valid_transition failed initializing = true
is_valid_transition _ _ = false

abbrev pub is_paused : AgentLifecycleState → Bool
is_paused paused = true
is_paused _ = false

abbrev pub is_running : AgentLifecycleState → Bool
is_running running = true
is_running _ = false

-- The agents, with the registry that finds them: `World` is their state, and a method that throws
-- returns the message of its error.
pub record Agents (World : Type 0) : Type 0 where
  pub find : World → String → Bool
  pub initialize : World → String → World × Option String
  pub status : World → String → String
  pub update_status : World → String → String → World × Option String
  pub shutdown : World → String → World × Option String

pub record AgentLifecycleManager (World : Type 0) : Type 0 where
  pub agent_states : Map AgentLifecycleState
  pub world : World

-- The exceptions; the last one wraps the one that was caught.
pub data LifecycleError : Type 0 where
  agent_not_found : String → LifecycleError
  invalid_state_transition : String → AgentLifecycleState → AgentLifecycleState → LifecycleError
  agent_error : String → LifecycleError
  agent_lifecycle : String → String → LifecycleError → LifecycleError

abbrev or_registered : Option AgentLifecycleState → AgentLifecycleState
or_registered none = registered
or_registered (some s) = s

module _ {World : Type 0} where
  unfoldable pub create : World → AgentLifecycleManager World
  create world = record { agent_states = []; world = world }

  unfoldable pub get_agent_state : AgentLifecycleManager World → String → AgentLifecycleState
  get_agent_state m id = or_registered (get id m.agent_states)

  unfoldable pub set_state :
      AgentLifecycleManager World → String → AgentLifecycleState → AgentLifecycleManager World
  set_state m id s = record m { agent_states = set id s m.agent_states }
