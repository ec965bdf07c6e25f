-- ===== src/Manager/Lifecycle/Tests.antt =====
-- Runs of the life of a plugin, and its theorems at concrete data.
use maintune.Base.{◌≡◌, refl, true, false, [], ◌∷◌, string_eq, nat_eq}
use maintune.Base.Dict.{has}
use maintune.Base.Result.{ok, err}
use maintune.Base.Unicode.{ascii}
use maintune.Json.{bool, list, nil, end, field}
use maintune.PluginApi.Registration.{ExtensionRegistration}
use maintune.Manager.State.{Process, PluginManager, record_of}
use maintune.Manager.Runtime.{Platform}
use maintune.PluginApi.Registry.{unregister_plugin}
use maintune.Manager.Runtime.{stop_runtime}
use maintune.Manager.Lifecycle.{disable}
use maintune.Manager.Lifecycle.Delay.{fail_at}

abbrev process : Process
process = record { is_running = true; registrations = list nil }

-- A platform where nothing else runs, whose processes cannot be stopped.
abbrev stuck : Platform
stuck = record {
  unicode = ascii;
  sha256 = λ s. s;
  decrypt = λ v. v;
  start = λ manifest mode context. ok process;
  stop = λ q. err "did not drain";
  others = λ m. m;
}

abbrev tool : ExtensionRegistration
tool = record {
  plugin_id = "my.plugin";
  kind = "tool";
  name = "search";
  identifier = "my.plugin/search";
  load_order = 1;
  metadata = end;
}

abbrev running : PluginManager
running = record {
  installed = [];
  config = ("plugin:my.plugin", field "enabled" (bool true) end) ∷ [];
  providers = [];
  processes = ("my.plugin", process) ∷ [];
  registry = record { entries = tool ∷ []; next_order = 1 };
  connections = [];
  subscriptions = [];
  restart_attempts = [];
  restart_after = [];
  ui_sessions = [];
  active_invocations = [];
  draining_plugins = [];
}

abbrev failed : PluginManager
failed = fail_at stuck (100 ∷ 200 ∷ 300 ∷ []) "my.plugin" running

-- The process cannot be stopped: the call fails, and the plugin stays enabled without a process.
still_enabled :
    ((disable stuck "my.plugin" running).1 ≡ err "did not drain")
    × (record_of "my.plugin" (disable stuck "my.plugin" running).0
        ≡ field "enabled" (bool true) end)
    × (has "my.plugin" (disable stuck "my.plugin" running).0.processes ≡ false)
unfolding disable stop_runtime unregister_plugin string_eq nat_eq
still_enabled = (refl, refl, refl)
