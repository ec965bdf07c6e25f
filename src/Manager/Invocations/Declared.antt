-- ===== src/Manager/Invocations/Declared.antt =====
-- Whose services a plugin reaches through `_v2_core_call` of backend/maintainer/plugin_manager.py.
use maintune.Base.{
  ◌≡◌, ◌⊎◌, inl, inr, String, true, false, not, ◌&&◌, arith, ◌==◌, string_eq, contains, Bool-cases,
}
use mathlib.Core.Path.{subst}
use maintune.Base.Result.{ok, Result-cases}
use maintune.Json.{Value, dict, Fields}
use maintune.Store.{Env}
use maintune.PluginApi.Registration.{ExtensionRegistration}
use maintune.PluginApi.Invoke.{get_registration-ok}
use maintune.Packages.{PluginManifest}
use maintune.Manager.State.{PluginManager, manifest_of}
use maintune.Manager.Reviews.{param}
use maintune.Manager.Invocations.{
  invokes_service, registered, dependency_ids, prepare_service, v2_core_call,
}

-- A service of the plugin itself, or of a plugin that the manifest of the caller names as a dependency.
abbrev pub IsDeclared : String → PluginManager → ExtensionRegistration → Type 0
IsDeclared plugin_id m r =
    (r.kind ≡ "service")
    × ((r.plugin_id ≡ plugin_id)
        ⊎ ((caller : PluginManifest) × (manifest_of plugin_id m ≡ ok caller)
            × (contains (dependency_ids caller.dependencies) r.plugin_id ≡ true)))

registered-kind :
    (identifier kind : String) (m : PluginManager) (r : ExtensionRegistration)
    → registered identifier kind m ≡ ok r
    → r.kind ≡ kind
registered-kind identifier kind m r h =
    (get_registration-ok identifier kind m.registry r (ground arith)).1

declared :
    (plugin_id : String) (m : PluginManager) (r : ExtensionRegistration) (caller : PluginManifest)
    → r.kind ≡ "service"
    → manifest_of plugin_id m ≡ ok caller
    → (not (r.plugin_id == plugin_id)
        && not (contains (dependency_ids caller.dependencies) r.plugin_id))
      ≡ false
    → IsDeclared plugin_id m r
declared plugin_id m r caller kind found h = elim (Bool-cases (r.plugin_id == plugin_id)) [
  | inl same ↦ (kind, inl (ground arith))
  | inr other ↦ (kind, inr (caller, found, ground arith))
]

prepare_service-IsDeclared :
    (env : Env) (plugin_id : String) (params : Fields) (m : PluginManager)
    (r : ExtensionRegistration)
    → prepare_service env plugin_id params m ≡ ok r
    → IsDeclared plugin_id m r
unfolding prepare_service
prepare_service-IsDeclared env plugin_id params m r done =
    elim (Result-cases (registered (param env "service_id" params) "service" m)) [
      | inl (e, raised) ↦ ground arith
      | inr (q, found) ↦ elim (Result-cases (manifest_of plugin_id m)) [
        | inl (e, raised) ↦ ground arith
        | inr (caller, installed) ↦
            let allowed : (not (q.plugin_id == plugin_id)
                  && not (contains (dependency_ids caller.dependencies) q.plugin_id))
                ≡ false =
              ground arith in
            let same : q ≡ r = ground arith in
            subst (IsDeclared plugin_id m) same (
              declared plugin_id m q caller
                (registered-kind (param env "service_id" params) "service" m q found) installed
                allowed)
      ]
    ]

-- A plugin reaches through the Core only its own services and those of plugins that its manifest names as
-- dependencies.
pub v2_core_call-IsDeclared :
    (env : Env) (plugin_id method : String) (params : Value) (m : PluginManager)
    (r : ExtensionRegistration) (input : Value)
    → v2_core_call env plugin_id method params m ≡ ok (invokes_service r input)
    → IsDeclared plugin_id m r
unfolding v2_core_call
v2_core_call-IsDeclared env plugin_id method (dict params) m r input done =
    prepare_service-IsDeclared env plugin_id params m r (ground arith)
v2_core_call-IsDeclared env plugin_id method v m r input done = cc
