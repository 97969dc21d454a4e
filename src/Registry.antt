-- ===== src/Registry.antt =====
-- backend/services/ai-kernel/src/agents/registry/agent-registry.ts. An agent is what the registry
-- reads of it; its methods, which may throw, are arguments of the calls that use them.
pub mod Validation
pub mod Laws
pub mod Capabilities
pub mod Examples
use nexus_ai_workspace.Common.{
  ℕ, String, Bool, true, false, List, [], ◌∷◌, Option, none, some, ◌⊎◌, inl, inr, ◌===◌, length,
  is_some, not, if◌then◌else◌, select, some_of,
}
use Prim.Native.String.{◌++◌ as text_append}
use nexus_ai_workspace.Common.Map.{Map, get, set, delete, has, values}

pub record AgentCapability : Type 0 where
  pub id : String
  pub name : String

pub record AgentMetadata : Type 0 where
  pub id : String
  pub name : String
  pub version : String

-- The type is a text, since the registry tests at run time that it is one of the enum's values.
pub record Agent : Type 0 where
  pub metadata : AgentMetadata
  pub type : String
  pub capabilities : List AgentCapability

pub record AgentRegistry : Type 0 where
  pub agents : Map Agent

pub data RegistryError : Type 0 where
  agent_not_found : String → RegistryError
  duplicate_agent : String → RegistryError
  agent_registration : String → Option String → RegistryError

-- `Object.values(AgentType)`
unfoldable pub agent_types : List String
agent_types =
    "system" ∷ "workflow" ∷ "task" ∷ "service" ∷ "autonomous" ∷ "reactive" ∷ "collaborative" ∷ []

unfoldable pub validate_capabilities : List AgentCapability → Option String
validate_capabilities [] = none
validate_capabilities (c ∷ cs) =
    if c.id === ""
    then some "Capability ID is required"
    else if c.name === ""
    then some "Capability name is required"
    else validate_capabilities cs

-- The message of the error that is thrown, or none.
unfoldable pub validate_agent : Agent → Option String
validate_agent a =
    if a.metadata.id === ""
    then some "Agent ID is required"
    else if a.metadata.name === ""
    then some "Agent name is required"
    else if a.metadata.version === ""
    then some "Agent version is required"
    else if a.type === ""
    then some "Agent type is required"
    else if not (some_of (λ t. t === a.type) agent_types)
    then some (text_append "Invalid agent type: " a.type)
    else validate_capabilities a.capabilities

unfoldable pub create : AgentRegistry
create = record { agents = [] }

-- The end of `register` and `update`: the agent is stored if it is valid.
abbrev pub stored :
    AgentRegistry → Agent → String → Option String → AgentRegistry × Option RegistryError
stored s a failure none = (record s { agents = set a.metadata.id a s.agents }, none)
stored s a failure (some problem) =
    (s, some (agent_registration (text_append failure problem) (some a.metadata.id)))

unfoldable pub register : AgentRegistry → Agent → AgentRegistry × Option RegistryError
register s a =
    if a.metadata.id === ""
    then (s, some (agent_registration "Agent ID is required" none))
    else if has a.metadata.id s.agents
    then (s, some (duplicate_agent a.metadata.id))
    else stored s a "Failed to register agent: " (validate_agent a)

-- `shutdown` gives the message of its error, which becomes a warning: the agent is removed anyway.
-- The source awaits it before the removal; here no other call comes in between.
unfoldable pub remove :
    (shutdown : Agent → Option String)
    → AgentRegistry
    → String
    → AgentRegistry × Option RegistryError × Option String
remove shutdown s id = elim (get id s.agents) [
  | none ↦ (s, some (agent_not_found id), none)
  | some a ↦ (record s { agents = delete id s.agents }, none, shutdown a)
]

unfoldable pub update : AgentRegistry → Agent → AgentRegistry × Option RegistryError
update s a =
    if has a.metadata.id s.agents
    then stored s a "Failed to update agent: " (validate_agent a)
    else (s, some (agent_not_found a.metadata.id))

unfoldable pub find_agent : AgentRegistry → String → Option Agent
find_agent s id = get id s.agents

unfoldable pub list : AgentRegistry → List Agent
list s = values s.agents

unfoldable pub find_by_capability :
    (has_capability : Agent → String → Bool) → AgentRegistry → String → List Agent
find_by_capability has_capability s id = select (λ a. has_capability a id) (values s.agents)

unfoldable pub find_by_type : AgentRegistry → String → List Agent
find_by_type s type = select (λ a. a.type === type) (values s.agents)

pub record AgentHealth : Type 0 where
  pub status : String
  pub uptime : ℕ
  pub last_heartbeat : ℕ
  pub errors : List String
  pub warnings : List String

-- The health of an agent whose `getHealth` throws.
abbrev pub health_or_unhealthy : ℕ → AgentHealth ⊎ String → AgentHealth
health_or_unhealthy now (inl health) = health
health_or_unhealthy now (inr problem) = record {
  status = "unhealthy";
  uptime = 0;
  last_heartbeat = now;
  errors = problem ∷ [];
  warnings = [];
}

unfoldable pub health_of : (Agent → AgentHealth ⊎ String) → ℕ → Map Agent → Map AgentHealth
health_of get_health now [] = []
health_of get_health now ((id, a) ∷ m) =
    (id, health_or_unhealthy now (get_health a)) ∷ health_of get_health now m

unfoldable pub health : (Agent → AgentHealth ⊎ String) → ℕ → AgentRegistry → Map AgentHealth
health get_health now s = health_of get_health now s.agents

-- None where the call throws, for an agent that is not found.
unfoldable pub health_check :
    (Agent → AgentHealth ⊎ String) → ℕ → AgentRegistry → String → Option AgentHealth
health_check get_health now s id = elim (get id s.agents) [
  | none ↦ none
  | some a ↦ some (health_or_unhealthy now (get_health a))
]

unfoldable pub is_known : AgentRegistry → String → Bool
is_known s id = has id s.agents

unfoldable pub count : AgentRegistry → ℕ
count s = length s.agents

unfoldable pub add_capabilities : List AgentCapability → Map AgentCapability → Map AgentCapability
add_capabilities [] m = m
add_capabilities (c ∷ cs) m = add_capabilities cs (set c.id c m)

unfoldable pub capability_map : Map Agent → Map AgentCapability → Map AgentCapability
capability_map [] m = m
capability_map ((id, a) ∷ agents) m = capability_map agents (add_capabilities a.capabilities m)

unfoldable pub list_capabilities : AgentRegistry → List AgentCapability
list_capabilities s = values (capability_map s.agents [])
