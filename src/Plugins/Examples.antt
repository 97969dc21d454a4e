-- ===== src/Plugins/Examples.antt =====
-- Tests of PluginRegistry on small registries.
use nexus_ai_workspace.Common.{
  String, String_discrete, ◌≡◌, refl, true, false, List, [], ◌∷◌, none, some, inl, inr,
}
use nexus_ai_workspace.Common.Map.{get, set, delete}
use nexus_ai_workspace.Plugins.{
  PluginDescriptor, PluginValidator, active, inactive, create, register, unregister, find,
  find_by_name, update_status, with_status, increment_usage, used, list_by_status, get_usage_stats,
  get_status, plugin_not_found, clear, plugin_active, duplicate_name, has_active_plugins,
}
use nexus_ai_workspace.Plugins.History.{
  Call, to_register, to_unregister, to_update_status, to_increment_usage, run, find_by_name_iff,
}

-- Accepts every plugin, and finds no duplicate capability.
abbrev validator : PluginValidator
validator = record { validate = λ p. (true, []); duplicate_capabilities = λ p ps. [] }

abbrev plugin : String → String → PluginDescriptor
plugin own_id own_name = record {
  id = own_id;
  name = own_name;
  status = inactive;
  loaded_at = none;
  last_used = none;
  load_time = none;
  usage_count = 0;
  errors = [];
  warnings = [];
  capabilities = [];
  rest = 0;
}

abbrev calls : List Call
calls =
    to_register (plugin "p1" "search")
    ∷ to_register (plugin "p2" "search")
    ∷ to_register (plugin "p3" "mail")
    ∷ to_unregister "p3"
    ∷ to_update_status "p1" active 5
    ∷ to_increment_usage "p1" 9
    ∷ []

abbrev busy_plugin : PluginDescriptor
busy_plugin = record (plugin "p1" "search") { status = active; last_used = some 9; usage_count = 1 }

found_by_id : find "p1" (run validator calls create) ≡ some busy_plugin
unfolding find get create register unregister update_status with_status increment_usage used set
    delete String_discrete
found_by_id = refl

find_by_name_iff_example : find_by_name "search" (run validator calls create) ≡ some busy_plugin
unfolding String_discrete
find_by_name_iff_example =
    (find_by_name_iff validator calls "search" busy_plugin).1 (found_by_id, refl, refl)

second_refused :
    register validator (plugin "p2" "search") (run validator calls create)
    ≡ (run validator calls create, some (duplicate_name "search" "p1"))
unfolding get create register unregister update_status with_status increment_usage used set delete
    String_discrete
second_refused = refl

active_kept :
    unregister "p1" (run validator calls create)
    ≡ ((run validator calls create, false), some (plugin_active "p1"))
unfolding get create register unregister update_status with_status increment_usage used set delete
    String_discrete
active_kept = refl

clear_refused :
    clear (run validator calls create) ≡ (run validator calls create, some (has_active_plugins 1))
unfolding clear get create register unregister update_status with_status increment_usage used set
    delete String_discrete
clear_refused = refl

active_listed : list_by_status active (run validator calls create) ≡ busy_plugin ∷ []
unfolding list_by_status get create register unregister update_status with_status increment_usage
    used set delete String_discrete
active_listed = refl

used_once :
    get_usage_stats "p1" (run validator calls create)
    ≡ inr (record { usage_count = 1; last_used = some 9; average_load_time = none })
unfolding get_usage_stats get create register unregister update_status with_status increment_usage
    used set delete String_discrete
used_once = refl

removed_has_no_status : get_status "p3" (run validator calls create) ≡ inl (plugin_not_found "p3")
unfolding get_status get create register unregister update_status with_status increment_usage used
    set delete String_discrete
removed_has_no_status = refl
