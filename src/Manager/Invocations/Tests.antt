-- ===== src/Manager/Invocations/Tests.antt =====
-- Calls of plugins, and the theorems on them at concrete data.
use maintune.Base.{ℕ, ◌≡◌, refl, String, true, some, none, List, [], ◌∷◌, string_eq, nat_eq}
use maintune.Base.Dict.{lookup}
use maintune.Base.Result.{ok, err}
use maintune.Base.Int.{pos}
use maintune.Json.{null, int, str, dict, Fields, end, field}
use maintune.Json.Equality.{eq_value}
use maintune.Store.{Env}
use maintune.PluginApi.Registration.{ExtensionRegistration}
use maintune.PluginApi.Registry.{get_registration, only_one}
use maintune.Packages.{PluginManifest}
use maintune.Manager.State.{PluginManager}
use maintune.Manager.Invocations.{
  begin_invocation, finish_invocation, invokes_service, prepare_service, v2_core_call,
  provider_timeout,
}
use maintune.Manager.Invocations.Counted.{Reaches, idle, begun, finished, reachable-IsCounted}
use maintune.Manager.Invocations.Declared.{IsDeclared, v2_core_call-IsDeclared}

abbrev forecast : ExtensionRegistration
forecast = record {
  plugin_id = "my.weather";
  kind = "service";
  name = "forecast";
  identifier = "my.weather/forecast";
  load_order = 1;
  metadata = field "version" (str "1.0.0") end;
}

-- A plugin that depends on another.
abbrev travel : PluginManifest
travel = record {
  id = "my.travel";
  name = "Travel";
  version = "1.0.0";
  plugin_api = 2;
  api_version = none;
  entrypoint = [];
  capabilities = [];
  config = [];
  runtime = record { default = "isolated"; supported = "isolated" ∷ [] };
  python_dependencies = none;
  dependencies = record { id = "my.weather"; version = "*"; is_required = true } ∷ [];
  config_schema = none;
  ui = none;
}

abbrev manager : List (String × ℕ) → PluginManager
manager active = record {
  installed = ("my.travel", travel) ∷ [];
  config = [];
  providers = [];
  processes = ("my.weather", record { is_running = true; registrations = null }) ∷ [];
  registry = record { entries = forecast ∷ []; next_order = 1 };
  connections = [];
  subscriptions = [];
  restart_attempts = [];
  restart_after = [];
  ui_sessions = [];
  active_invocations = active;
  draining_plugins = [];
}

-- Two calls of a plugin begin, and one ends.
one_left :
    Reaches (finish_invocation "my.weather" (manager (("my.weather", 2) ∷ []))) ("my.weather" ∷ [])
unfolding begin_invocation string_eq
one_left =
    finished "my.weather"
      (begun {m = manager (("my.weather", 1) ∷ [])} {m' = manager (("my.weather", 2) ∷ [])} forecast
        (begun {m = manager []} forecast (idle refl) refl) refl)
      refl

reachable-IsCounted_example :
    lookup "my.weather"
      (finish_invocation "my.weather" (manager (("my.weather", 2) ∷ []))).active_invocations
    ≡ some 1
unfolding string_eq
reachable-IsCounted_example = reachable-IsCounted "my.weather" one_left

abbrev asked : Fields
asked = field "service_id" (str "my.weather/forecast") (field "version" (str "1.0.0") end)

abbrev env : Env
env = record { now = null; new_id = "id"; payload_hash = λ v. ""; repr = λ v. "" }

answered :
    v2_core_call env "my.travel" "service.call" (dict asked) (manager [])
    ≡ ok (invokes_service forecast (dict end))
unfolding v2_core_call prepare_service get_registration only_one string_eq eq_value
answered = refl

v2_core_call-IsDeclared_example : IsDeclared "my.travel" (manager []) forecast
v2_core_call-IsDeclared_example =
    v2_core_call-IsDeclared env "my.travel" "service.call" (dict asked) (manager []) forecast
      (dict end) answered

too_short :
    provider_timeout "sandbox" (field "action" (str "exec") (field "timeout" (int (pos 0)) end))
    ≡ err "Sandbox execution timeout is invalid"
unfolding string_eq eq_value
too_short = refl
