-- ===== src/Memory.antt =====
-- backend/services/ai-kernel/src/agents/memory/agent-memory.ts: the storage of BaseAgentMemory.
-- Nothing in these methods throws, so `errors` stays as it is. The test for a prefix is a
-- parameter; a time is an argument.
pub mod Shared
pub mod Examples
use nexus_ai_workspace.Common.{
  ℕ, String, Bool, List, [], ◌∷◌, Option, none, some, ◌+◌, if◌then◌else◌,
}
use nexus_ai_workspace.Common.Map.{Map, get, set, delete, has}
use nexus_ai_workspace.Values.{Metadata}
use Prim.Native.String.{◌++◌ as text_append}

pub record MemoryContext : Type 0 where
  pub request_id : String
  pub trace_id : String
  pub workspace_id : String
  pub user_id : String
  pub conversation_id : Option String
  pub agent_id : String
  pub execution_id : String
  pub metadata : Metadata

pub record AgentMemory (A : Type 0) : Type 0 where
  pub storage : Map A
  pub access_log : Map ℕ

unfoldable pub build_key : (prefix key : String) → String
build_key prefix key = text_append prefix (text_append ":" key)

module _ {A : Type 0} where
  abbrev pub touched : String → Option A → ℕ → AgentMemory A → AgentMemory A
  touched k none now m = m
  touched k (some v) now m = record m { access_log = set k now m.access_log }

  -- The methods take the full key.
  unfoldable pub load : String → ℕ → AgentMemory A → Option A × AgentMemory A
  load k now m = (get k m.storage, touched k (get k m.storage) now m)

  unfoldable pub save : String → A → ℕ → AgentMemory A → AgentMemory A
  save k v now m = record m { storage = set k v m.storage; access_log = set k now m.access_log }

  unfoldable pub exists : String → AgentMemory A → Bool
  exists k m = has k m.storage

  module _ (starts_with : String → String → Bool) where
    abbrev pub keys_with : String → Map A → List String
    keys_with prefix [] = []
    keys_with prefix ((k, v) ∷ m) =
        let rest = keys_with prefix m in if starts_with k prefix then k ∷ rest else rest

    abbrev pub delete_keys : List String → AgentMemory A → AgentMemory A
    delete_keys [] m = m
    delete_keys (k ∷ ks) m =
        delete_keys ks
          (record m { storage = delete k m.storage; access_log = delete k m.access_log })

    unfoldable pub clear : String → AgentMemory A → AgentMemory A
    clear prefix m = delete_keys (keys_with prefix m.storage) m

    abbrev pub count_with : String → Map A → ℕ
    count_with prefix [] = 0
    count_with prefix ((k, v) ∷ m) =
        let rest = count_with prefix m in if starts_with k prefix then rest + 1 else rest

    unfoldable pub size : String → AgentMemory A → ℕ
    size prefix m = count_with prefix m.storage
