-- ===== src/Plugins.antt =====
-- backend/services/ai-kernel/src/agents/plugins/plugin-registry.ts: PluginRegistry. The validator
-- is a parameter, and a time is an argument. A call runs from its start to its end, and a plugin is
-- changed by the registry only. The list of errors, which nothing writes but `clear`, is left out.
pub mod Laws
pub mod History
mod Examples
use nexus_ai_workspace.Common.{
  ◌⊎◌, inl, inr, ℕ, String, Bool, true, false, not, List, [], ◌∷◌, ◌++◌, Option, none, some, ◌+◌,
  ◌===◌, ltb, ◌&&◌, length, select, if◌then◌else◌,
}
use nexus_ai_workspace.Common.Map.{Map, get, set, delete, has, values}

pub data PluginStatus : Type 0 where
  discovered loading loaded active inactive failed unloading unloaded : PluginStatus

-- A plugin, with the names of its capabilities. `rest` stands for its version, the rest of its
-- metadata, its factory, its source and its agent.
pub record PluginDescriptor : Type 0 where
  pub id : String
  pub name : String
  pub status : PluginStatus
  pub loaded_at : Option ℕ
  pub last_used : Option ℕ
  pub load_time : Option ℕ
  pub usage_count : ℕ
  pub errors : List String
  pub warnings : List String
  pub capabilities : List String
  pub rest : ℕ

-- What the registry asks of its validator: the errors of a plugin, and which of its capabilities
-- the plugins have already.
pub record PluginValidator : Type 0 where
  pub validate : PluginDescriptor → Bool × List String
  pub duplicate_capabilities : PluginDescriptor → List PluginDescriptor → List String

-- A warning holds the id of a plugin and its duplicate capabilities.
pub record PluginRegistry : Type 0 where
  pub plugins : Map PluginDescriptor
  pub plugins_by_name : Map String
  pub warnings : List (String × List String)

pub data PluginError : Type 0 where
  duplicate_id : String → PluginError
  duplicate_name : (name existing : String) → PluginError
  invalid_plugin : String → List String → PluginError
  plugin_not_found : String → PluginError
  plugin_active : String → PluginError
  has_active_plugins : ℕ → PluginError

abbrev pub Result : Type 0
Result = PluginRegistry × Option PluginError

unfoldable pub create : PluginRegistry
create = record { plugins = []; plugins_by_name = []; warnings = [] }

abbrev pub is_active : PluginStatus → Bool
is_active active = true
is_active _ = false

abbrev pub is_loaded : PluginStatus → Bool
is_loaded loaded = true
is_loaded _ = false

abbrev pub warn : String → List String → PluginRegistry → PluginRegistry
warn id [] r = r
warn id (c ∷ cs) r = record r { warnings = r.warnings ++ (id, c ∷ cs) ∷ [] }

abbrev pub store : PluginDescriptor → PluginRegistry → PluginRegistry
store p r = record r {
  plugins = set p.id (record p { status = discovered }) r.plugins;
  plugins_by_name = set p.name p.id r.plugins_by_name;
}

abbrev pub registered :
    PluginDescriptor → Bool × List String → List String → PluginRegistry → Result
registered p (false, errors) duplicates r = (r, some (invalid_plugin p.id errors))
registered p (true, errors) duplicates r = (store p (warn p.id duplicates r), none)

abbrev pub check_name : PluginValidator → PluginDescriptor → PluginRegistry → Option String → Result
check_name validator p r (some existing) =
    (r, some (duplicate_name p.name (if existing === "" then "unknown" else existing)))
check_name validator p r none =
    registered p (validator.validate p) (validator.duplicate_capabilities p (values r.plugins)) r

unfoldable pub register : PluginValidator → PluginDescriptor → PluginRegistry → Result
register validator p r =
    if has p.id r.plugins
    then (r, some (duplicate_id p.id))
    else check_name validator p r (get p.name r.plugins_by_name)

abbrev pub unregistered :
    String → Option PluginDescriptor → PluginRegistry → (PluginRegistry × Bool) × Option PluginError
unregistered id none r = ((r, false), none)
unregistered id (some p) r = if is_active p.status then ((r, false), some (plugin_active id)) else (
  (
    record r { plugins_by_name = delete p.name r.plugins_by_name; plugins = delete id r.plugins },
    true,
  ),
  none,
)

unfoldable pub unregister : String → PluginRegistry → (PluginRegistry × Bool) × Option PluginError
unregister id r = unregistered id (get id r.plugins) r

unfoldable pub find : String → PluginRegistry → Option PluginDescriptor
find id r = get id r.plugins

abbrev pub named : PluginRegistry → Option String → Option PluginDescriptor
named r none = none
named r (some id) = if id === "" then none else get id r.plugins

unfoldable pub find_by_name : String → PluginRegistry → Option PluginDescriptor
find_by_name name r = named r (get name r.plugins_by_name)

unfoldable pub list : PluginRegistry → List PluginDescriptor
list r = values r.plugins

abbrev pub status_text : PluginStatus → String
status_text discovered = "discovered"
status_text loading = "loading"
status_text loaded = "loaded"
status_text active = "active"
status_text inactive = "inactive"
status_text failed = "failed"
status_text unloading = "unloading"
status_text unloaded = "unloaded"

unfoldable pub list_by_status : PluginStatus → PluginRegistry → List PluginDescriptor
list_by_status s r = select (λ p. status_text p.status === status_text s) (values r.plugins)

unfoldable pub exists : String → PluginRegistry → Bool
exists id r = has id r.plugins

unfoldable pub count : PluginRegistry → ℕ
count r = length r.plugins

unfoldable pub clear : PluginRegistry → Result
clear r =
    let active_plugins = length (select (λ p. is_active p.status) (values r.plugins)) in
    if ltb 0 active_plugins then (r, some (has_active_plugins active_plugins)) else (create, none)

-- The statements of a method after it has found its plugin, which it changes.
abbrev pub change :
    String
    → (PluginDescriptor → PluginDescriptor)
    → Option PluginDescriptor
    → PluginRegistry
    → Result
change id f none r = (r, some (plugin_not_found id))
change id f (some p) r = (record r { plugins = set id (f p) r.plugins }, none)

unfoldable pub with_status : PluginStatus → ℕ → PluginDescriptor → PluginDescriptor
with_status s now p =
    let loads = is_loaded s && not (is_loaded p.status) in
    let starts = is_active s && not (is_active p.status) in
    record p {
      status = s;
      loaded_at = if loads then some now else p.loaded_at;
      last_used = if starts then some now else p.last_used;
    }

unfoldable pub update_status : String → PluginStatus → ℕ → PluginRegistry → Result
update_status id s now r = change id (with_status s now) (get id r.plugins) r

unfoldable pub used : ℕ → PluginDescriptor → PluginDescriptor
used now p = record p { usage_count = p.usage_count + 1; last_used = some now }

unfoldable pub increment_usage : String → ℕ → PluginRegistry → Result
increment_usage id now r = change id (used now) (get id r.plugins) r

abbrev pub status_of : String → Option PluginDescriptor → PluginError ⊎ PluginStatus
status_of id none = inl (plugin_not_found id)
status_of id (some p) = inr p.status

unfoldable pub get_status : String → PluginRegistry → PluginError ⊎ PluginStatus
get_status id r = status_of id (get id r.plugins)

pub record UsageStats : Type 0 where
  pub usage_count : ℕ
  pub last_used : Option ℕ
  pub average_load_time : Option ℕ

abbrev pub usage_of : String → Option PluginDescriptor → PluginError ⊎ UsageStats
usage_of id none = inl (plugin_not_found id)
usage_of id (some p) = inr (record {
  usage_count = p.usage_count;
  last_used = p.last_used;
  average_load_time = p.load_time;
})

unfoldable pub get_usage_stats : String → PluginRegistry → PluginError ⊎ UsageStats
get_usage_stats id r = usage_of id (get id r.plugins)
