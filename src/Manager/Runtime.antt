-- ===== src/Manager/Runtime.antt =====
-- Starting and stopping a plugin in backend/maintainer/plugin_manager.py: `enable` and `_stop_runtime`. Starting and
-- stopping a process are parameters, as is what other calls do while a method waits.
use maintune.Base.{
  ℕ, String, Bool, true, false, not, Option, none, some, List, [], ◌∷◌, filter, map, if◌then◌else◌,
  ◌==◌, string_eq, nat_eq, contains,
}
use maintune.Base.Dict.{lookup, insert, erase, has}
use maintune.Base.Result.{ok, err, ◌>>=◌, ◌>>◌, raise_if}
use maintune.Base.Unicode.{Unicode}
use maintune.Json.{Value, bool, str, Fields, end, get, put}
use maintune.PluginApi.Registry.{register_plugin, unregister_plugin}
use maintune.PluginApi.Hooks.{HookSpec}
use maintune.PluginApi.Hooks.Catalog.{hook_catalog}
use maintune.Packages.{PluginManifest, is_legacy}
use maintune.Manager.State.{
  Process, PluginManager, Managed, manifest_of, record_of, save_record, missing_settings,
  check_dependencies, v2_context,
}
use maintune.Manager.Providers.{
  provider_items, is_model_provider, validate_provider_config, sync_providers,
}

abbrev pub hook_names : List String
hook_names = map (λ (h : HookSpec). h.name) hook_catalog

-- What the manager takes from outside.
pub record Platform : Type 0 where
  pub unicode : Unicode
  pub sha256 : String → String
  pub decrypt : Value → Value
  -- `process.start`, in a mode and with a context, and `process.stop`
  pub start : PluginManifest → String → Option Fields → Managed Process
  pub stop : Process → Managed (Unit {0})
  -- what other calls do while a method of the manager waits
  pub others : PluginManager → PluginManager

-- `record.get("runtime_mode", manifest.runtime.default)`
abbrev mode_of : PluginManifest → Fields → String
mode_of manifest r = if is_legacy manifest then "isolated" else elim (get "runtime_mode" r) [
  | none ↦ manifest.runtime.default
  | some v ↦ elim v [ str s ↦ s | _ ↦ "" ]
]

-- What `enable` finds before it starts a process.
pub record Ready : Type 0 where
  pub manifest : PluginManifest
  pub stored : Fields
  pub mode : String
  pub context : Option Fields

abbrev pub set_field : String → Value → Fields → Fields
set_field key v r = put key v r

-- `record.update({"enabled": True, "error": ""})`
abbrev pub enabled_record : Fields → Fields
enabled_record r = put "error" (str "") (put "enabled" (bool true) r)

module _ (p : Platform) where
  abbrev context_of : PluginManifest → Fields → Managed (Option Fields)
  context_of manifest r =
      if is_legacy manifest
      then ok none
      else (v2_context p.decrypt manifest r >>= λ context. ok (some context))

  -- The checks of `enable` for a plugin that has no process.
  unfoldable pub get_ready : PluginManifest → Fields → PluginManager → Managed Ready
  get_ready manifest r m = do
    (if is_legacy manifest then ok tt else check_dependencies m manifest.dependencies)
    raise_if (not (contains manifest.runtime.supported (mode_of manifest r)))
        "Selected plugin runtime is not supported by this package"
    context ← context_of manifest r
    ok (record { manifest = manifest; stored = r; mode = mode_of manifest r; context = context })

  abbrev pub unregistered : String → PluginManager → PluginManager
  unregistered plugin_id m = record m { registry = unregister_plugin plugin_id m.registry }

  abbrev pub context_fields : Option Fields → Fields
  context_fields none = end
  context_fields (some context) = context

  -- The registrations of a v2 plugin and its rows of providers.
  unfoldable pub register : String → Ready → Process → PluginManager → Managed PluginManager
  register plugin_id ready process m =
      elim (register_plugin p.unicode hook_names plugin_id process.registrations m.registry) [
        | err e ↦ err "Plugin registration is invalid"
        | ok (g, added) ↦ (do
          validate_provider_config ready.manifest (context_fields ready.context) g
          rows ←
              sync_providers p.sha256 ready.manifest
                (filter is_model_provider (provider_items ready.manifest.id g)) m.providers
          ok (record m { registry = g; providers = rows }))
      ]

  abbrev pub with_process : String → Process → PluginManager → PluginManager
  with_process plugin_id process m = record m { processes = insert plugin_id process m.processes }

  -- `enable` once the process has started.
  unfoldable pub attach :
      String → Ready → Process → PluginManager → PluginManager × Managed (Unit {0})
  attach plugin_id ready process m =
      if is_legacy ready.manifest
      then (
        save_record plugin_id (enabled_record ready.stored) (with_process plugin_id process m),
        ok tt,
      )
      else elim (register plugin_id ready process m) [
        | err e ↦ (p.others (unregistered plugin_id m), p.stop process >> err e)
        | ok registered ↦ (
          save_record plugin_id (enabled_record ready.stored)
              (with_process plugin_id process registered),
          ok tt,
        )
      ]

  unfoldable pub launch : String → Ready → PluginManager → PluginManager × Managed (Unit {0})
  unfolding attach
  launch plugin_id ready m = elim (p.start ready.manifest ready.mode ready.context) [
    | err e ↦ (p.others m, err e)
    | ok process ↦ attach plugin_id ready process (p.others m)
  ]

  -- What `enable` does with a plugin whose settings are complete.
  abbrev pub enable_ready :
      String → PluginManifest → PluginManager → PluginManager × Managed (Unit {0})
  enable_ready plugin_id manifest m =
      if has plugin_id m.processes
      then (save_record plugin_id (enabled_record (record_of plugin_id m)) m, ok tt)
      else elim (get_ready manifest (record_of plugin_id m) m) [
        | err e ↦ (m, err e)
        | ok ready ↦ launch plugin_id ready m
      ]

  abbrev pub has_none : List String → Bool
  has_none [] = true
  has_none (s ∷ ss) = false

  -- `enable`
  unfoldable pub enable : String → PluginManager → PluginManager × Managed (Unit {0})
  unfolding launch
  enable plugin_id m = elim (manifest_of plugin_id m) [
    | err e ↦ (m, err e)
    | ok manifest ↦
        if has_none (missing_settings manifest (record_of plugin_id m))
        then enable_ready plugin_id manifest m
        else (m, err "Required plugin configuration is missing")
  ]

  abbrev pub stop_process : Option Process → Managed (Unit {0})
  stop_process none = ok tt
  stop_process (some process) = p.stop process

  -- `await process.stop()`, where there is a process.
  abbrev stopping : Option Process → PluginManager → PluginManager
  stopping none m = m
  stopping (some process) m = p.others m

  -- `await socket.close(code=1012)` for each socket.
  abbrev close_all : List String → PluginManager → PluginManager
  close_all [] m = m
  close_all (socket ∷ sockets) m = close_all sockets (p.others m)

  -- `self.active_invocations.get(plugin_id, 0)`
  abbrev active_calls : String → PluginManager → ℕ
  active_calls plugin_id m = elim (lookup plugin_id m.active_invocations) [ none ↦ 0 | some n ↦ n ]

  -- The wait for the calls of the plugin.
  abbrev drain : String → PluginManager → PluginManager
  drain plugin_id m = if active_calls plugin_id m == 0 then m else p.others m

  abbrev without_sockets : String → PluginManager → PluginManager
  without_sockets plugin_id m = record m {
    ui_sessions = filter (λ (s : String × (String × ℕ)). not (s.1.0 == plugin_id)) m.ui_sessions;
    connections = erase plugin_id m.connections;
    subscriptions = erase plugin_id m.subscriptions;
  }

  abbrev sockets_of : String → PluginManager → List String
  sockets_of plugin_id m = elim (lookup plugin_id m.connections) [ none ↦ [] | some ss ↦ ss ]

  -- `_stop_runtime`: the plugin drains while its calls end, its sockets are closed one by one, and its process is
  -- taken out before it is stopped, which may fail. Other calls run at each of these waits.
  unfoldable pub stop_runtime : String → PluginManager → PluginManager × Managed (Unit {0})
  stop_runtime plugin_id m =
      let unregistered_first : PluginManager = record (unregistered plugin_id m) {
        draining_plugins = plugin_id ∷ m.draining_plugins;
      } in
      let drained = drain plugin_id unregistered_first in
      let closed = close_all (sockets_of plugin_id drained) (without_sockets plugin_id drained) in
      let process = lookup plugin_id closed.processes in
      let stopped =
        stopping process (record closed { processes = erase plugin_id closed.processes }) in
      (
        record stopped {
          draining_plugins = filter (λ d. not (d == plugin_id)) stopped.draining_plugins;
        },
        stop_process process,
      )
