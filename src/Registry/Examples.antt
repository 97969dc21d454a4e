-- ===== src/Registry/Examples.antt =====
-- A registry with one agent.
use nexus_ai_workspace.Common.{
  String, String_discrete, true, [], ◌∷◌, Option, none, some, ◌≡◌, ◌≢◌, ◌↔◌, refl, All, ◌===◌,
  some_of,
}
use nexus_ai_workspace.Common.Map.{get, set}
use nexus_ai_workspace.Registry.{
  Agent, AgentRegistry, agent_types, validate_agent, validate_capabilities, create, register,
}
use nexus_ai_workspace.Registry.Validation.{IsNamed, validate_agent_iff}
use nexus_ai_workspace.Registry.Laws.{registers, removes, run, IsValid, registry_run-IsValid}

abbrev agent : Agent
agent = record {
  metadata = record { id = "a"; name = "Agent"; version = "1" };
  type = "task";
  capabilities = record { id = "search"; name = "Search" } ∷ [];
}

abbrev fails : Agent → Option String
fails a = some "no answer"

abbrev registry : AgentRegistry
registry = (register create agent).0

accepted : (register create agent).1 ≡ none
unfolding String_discrete register create get set validate_agent validate_capabilities agent_types
accepted = refl

validate_agent_iff_example : (validate_agent agent ≡ none) ↔ (
    (agent.metadata.id ≢ "")
    × (agent.metadata.name ≢ "")
    × (agent.metadata.version ≢ "")
    × (some_of (λ t. t === agent.type) agent_types ≡ true)
    × All IsNamed agent.capabilities)
validate_agent_iff_example = validate_agent_iff agent

registry_run-IsValid_example : IsValid (run fails create (registers agent ∷ removes "b" ∷ []))
registry_run-IsValid_example = registry_run-IsValid fails (registers agent ∷ removes "b" ∷ [])
