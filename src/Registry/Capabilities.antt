-- ===== src/Registry/Capabilities.antt =====
-- Which capabilities are listed.
use nexus_ai_workspace.Common.{
  String, ◌≡◌, refl, Bool, false, List, [], ◌∷◌, arith, ◌===◌, ◌||◌, some_of,
}
use nexus_ai_workspace.Common.Map.{Map, get, set, has, get-set}
use nexus_ai_workspace.Registry.{
  Agent, AgentCapability, AgentRegistry, add_capabilities, capability_map,
}

-- Does an agent of the registry have a capability with the id?
abbrev pub offered : String → Map Agent → Bool
offered k [] = false
offered k ((id, a) ∷ agents) = some_of (λ c. c.id === k) a.capabilities || offered k agents

has-add_capabilities :
    (k : String) (cs : List AgentCapability) (m : Map AgentCapability)
    → has k (add_capabilities cs m) ≡ (some_of (λ c. c.id === k) cs || has k m)
unfolding add_capabilities
has-add_capabilities k [] m = refl
has-add_capabilities k (c ∷ cs) m =
    ground (arith, has-add_capabilities k cs (set c.id c m), get-set c.id k c m)

has-capability_map :
    (k : String) (agents : Map Agent) (m : Map AgentCapability)
    → has k (capability_map agents m) ≡ (offered k agents || has k m)
unfolding capability_map
has-capability_map k [] m = refl
has-capability_map k ((id, a) ∷ agents) m = ground (
  arith,
  has-capability_map k agents (add_capabilities a.capabilities m),
  has-add_capabilities k a.capabilities m,
)

-- The map from which `listCapabilities` takes its result has an entry for exactly the ids of the
-- capabilities that some registered agent has.
pub capability_map-offered :
    (s : AgentRegistry) (k : String) → has k (capability_map s.agents []) ≡ offered k s.agents
unfolding get
capability_map-offered s k = ground (arith, has-capability_map k s.agents [])
