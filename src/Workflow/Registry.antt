-- ===== src/Workflow/Registry.antt =====
-- backend/services/ai-kernel/src/agents/workflow/workflow-registry.ts: the two indexes of
-- WorkflowRegistry and its methods. `toLowerCase` and `localeCompare` of the language are
-- parameters.
pub mod Structure
pub mod Laws
use nexus_ai_workspace.Common.{
  ℕ, String, Bool, true, false, not, List, [], ◌∷◌, ◌++◌, Option, none, some, ◌===◌, length, select,
  if◌then◌else◌, insert_before,
}
use nexus_ai_workspace.Common.Map.{Map, get, set, delete, has, values}
use nexus_ai_workspace.Workflow.{WorkflowDefinition}
use nexus_ai_workspace.Workflow.Registry.Structure.{StructureError, validate_workflow_structure}

pub record WorkflowRegistry : Type 0 where
  pub workflows : Map WorkflowDefinition
  pub workflows_by_name : Map (List WorkflowDefinition)

pub data RegistryError : Type 0 where
  id_required : RegistryError
  duplicate_workflow : String → RegistryError
  registration_failed : String → StructureError → RegistryError

unfoldable pub create : WorkflowRegistry
create = record { workflows = []; workflows_by_name = [] }

abbrev pub or_empty : Option (List WorkflowDefinition) → List WorkflowDefinition
or_empty none = []
or_empty (some ws) = ws

unfoldable pub find : WorkflowRegistry → String → Option WorkflowDefinition
find r id = get id r.workflows

unfoldable pub list : WorkflowRegistry → List WorkflowDefinition
list r = values r.workflows

unfoldable pub exists : WorkflowRegistry → String → Bool
exists r id = has id r.workflows

unfoldable pub count : WorkflowRegistry → ℕ
count r = length r.workflows

unfoldable pub clear : WorkflowRegistry → WorkflowRegistry
clear r = record { workflows = []; workflows_by_name = [] }

module _ (to_lower_case : String → String) where
  -- `register` up to the exception, which the second component holds.
  abbrev pub store : WorkflowRegistry → WorkflowDefinition → WorkflowRegistry
  store r w =
      let key = to_lower_case w.name in
      record {
        workflows = set w.workflow_id w r.workflows;
        workflows_by_name =
            set key (or_empty (get key r.workflows_by_name) ++ w ∷ []) r.workflows_by_name;
      }

  abbrev pub stored :
      WorkflowRegistry
      → WorkflowDefinition
      → Option StructureError
      → WorkflowRegistry × Option RegistryError
  stored r w none = (store r w, none)
  stored r w (some e) = (r, some (registration_failed w.workflow_id e))

  unfoldable pub register :
      WorkflowRegistry → WorkflowDefinition → WorkflowRegistry × Option RegistryError
  register r w =
      if w.workflow_id === ""
      then (r, some id_required)
      else if has w.workflow_id r.workflows
      then (r, some (duplicate_workflow w.workflow_id))
      else stored r w (validate_workflow_structure w)

  abbrev pub set_or_delete :
      String
      → List WorkflowDefinition
      → Map (List WorkflowDefinition)
      → Map (List WorkflowDefinition)
  set_or_delete key [] m = delete key m
  set_or_delete key (w ∷ ws) m = set key (w ∷ ws) m

  abbrev pub removed :
      WorkflowRegistry → String → Option WorkflowDefinition → WorkflowRegistry × Bool
  removed r id none = (r, false)
  removed r id (some w) =
      let key = to_lower_case w.name in
      let filtered =
        select (λ v. not (v.workflow_id === id)) (or_empty (get key r.workflows_by_name)) in
      (
        record {
          workflows = delete id r.workflows;
          workflows_by_name = set_or_delete key filtered r.workflows_by_name;
        },
        true,
      )

  unfoldable pub remove : WorkflowRegistry → String → WorkflowRegistry × Bool
  remove r id = removed r id (get id r.workflows)

  unfoldable pub find_by_name : WorkflowRegistry → String → List WorkflowDefinition
  find_by_name r name = or_empty (get (to_lower_case name) r.workflows_by_name)

  -- `newer v w` tells that `w.localeCompare(v)` is negative for the versions `v` and `w`.
  module _ (newer : String → String → Bool) where
    -- The stable sort from the newest version.
    abbrev pub sort_versions : List WorkflowDefinition → List WorkflowDefinition
    sort_versions [] = []
    sort_versions (w ∷ ws) =
        insert_before (λ v. not (newer v.version w.version)) w (sort_versions ws)

    abbrev pub sort_entry :
        String
        → Option (List WorkflowDefinition)
        → Map (List WorkflowDefinition)
        → Map (List WorkflowDefinition)
    sort_entry key none m = m
    sort_entry key (some ws) m = set key (sort_versions ws) m

    -- `listByVersion` sorts the array that the index holds, and returns it.
    unfoldable pub list_by_version :
        WorkflowRegistry → String → WorkflowRegistry × List WorkflowDefinition
    list_by_version r name =
        let key = to_lower_case name in
        (
          record r {
            workflows_by_name = sort_entry key (get key r.workflows_by_name) r.workflows_by_name;
          },
          sort_versions (find_by_name r name),
        )

    abbrev pub head : List WorkflowDefinition → Option WorkflowDefinition
    head [] = none
    head (w ∷ ws) = some w

    unfoldable pub get_latest_version :
        WorkflowRegistry → String → WorkflowRegistry × Option WorkflowDefinition
    get_latest_version r name = let listed = list_by_version r name in (listed.0, head listed.1)
