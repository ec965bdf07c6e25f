-- ===== src/Manager/Tools/Tests.antt =====
-- Selections of tools, and the theorems on them at concrete data.
use maintune.Base.{◌≡◌, refl, String, [], ◌∷◌, filter, string_eq, nat_eq, contains}
use maintune.Base.Result.{ok}
use maintune.Json.{Fields, end, field, list, cons, nil, str}
use maintune.PluginApi.Registration.{ExtensionRegistration}
use maintune.PluginApi.Registry.{list_kind}
use maintune.Manager.State.{PluginManager}
use maintune.Manager.Tools.{
  all_tools, texts_in, agent_tools, text_items, store_tools, set_agent_tools, add_tools,
  enable_recommended_tools,
}
use maintune.Manager.Tools.Selected.{agent_tools-set_agent_tools}

abbrev tool : String → String → Fields → ExtensionRegistration
tool name identifier metadata = record {
  plugin_id = "my.weather";
  kind = "tool";
  name = name;
  identifier = identifier;
  load_order = 1;
  metadata = metadata;
}

-- A plugin with two tools, of which it recommends the second.
abbrev manager : PluginManager
manager = record {
  installed = [];
  config = [];
  providers = [];
  processes = [];
  registry = record {
    entries =
        tool "city" "my.weather/city" end
        ∷ tool "forecast" "my.weather/forecast"
            (field "recommended_agents" (list (cons (str "code_worker") nil)) end)
        ∷ [];
    next_order = 1;
  };
  connections = [];
  subscriptions = [];
  restart_attempts = [];
  restart_after = [];
  ui_sessions = [];
  active_invocations = [];
  draining_plugins = [];
}

abbrev with_city : PluginManager
with_city = store_tools ("my.weather/city" ∷ []) manager

abbrev with_both : PluginManager
with_both = store_tools ("my.weather/city" ∷ "my.weather/forecast" ∷ []) with_city

city_chosen :
    set_agent_tools "code_worker"
      (list (text_items ("my.weather/city" ∷ "my.weather/city" ∷ [])))
      manager
    ≡ ok (with_city, "my.weather/city" ∷ [])
unfolding set_agent_tools list_kind string_eq nat_eq
city_chosen = refl

agent_tools-set_agent_tools_example :
    agent_tools "code_worker" with_city
    ≡ filter
        (λ r.
          contains
            (texts_in (list (text_items ("my.weather/city" ∷ "my.weather/city" ∷ []))))
            r.identifier)
        (all_tools manager)
agent_tools-set_agent_tools_example =
    agent_tools-set_agent_tools "code_worker"
      (list (text_items ("my.weather/city" ∷ "my.weather/city" ∷ []))) manager with_city
      ("my.weather/city" ∷ []) city_chosen

forecast_enabled :
    enable_recommended_tools "my.weather" with_city ≡ ok (with_both, "my.weather/forecast" ∷ [])
unfolding enable_recommended_tools add_tools agent_tools set_agent_tools list_kind string_eq nat_eq
forecast_enabled = refl
