-- ===== src/Manager/Lifecycle.antt =====
-- The methods that change a plugin in backend/maintainer/plugin_manager.py: `disable`, `reload`, `set_runtime_mode`,
-- `uninstall` and the two halves of `_heartbeat_loop`.
pub mod Delay
pub mod Tests
use maintune.Base.{
  ℕ, ◌+◌, ◌^◌, String, Bool, false, not, ◌||◌, none, some, min, ltb, if◌then◌else◌, string_eq,
  contains,
}
use maintune.Base.Dict.{lookup, insert, erase, has}
use maintune.Base.Result.{ok, err, ◌>>=◌, ◌>>◌, raise_if}
use maintune.Base.Text.{cut, one_line}
use maintune.Json.{bool, str, put}
use maintune.Packages.{is_legacy}
use maintune.Manager.State.{
  Process, PluginManager, Managed, config_id, manifest_of, record_of, save_record, is_enabled,
}
use maintune.Manager.Runtime.{Platform, unregistered, enable, stop_runtime}

module _ (p : Platform) where
  -- `record["enabled"] = False` and `record["error"] = ...`, saved.
  abbrev pub save_enabled : Bool → String → PluginManager → PluginManager
  save_enabled b plugin_id m =
      save_record plugin_id (put "enabled" (bool b) (record_of plugin_id m)) m

  -- `_sanitize`
  abbrev pub sanitize : String → String
  sanitize message = cut 500 (one_line message)

  abbrev pub save_error : String → String → PluginManager → PluginManager
  save_error e plugin_id m =
      save_record plugin_id (put "error" (str (sanitize e)) (record_of plugin_id m)) m

  -- `disable`
  unfoldable pub disable : String → PluginManager → PluginManager × Managed (Unit {0})
  unfolding stop_runtime
  disable plugin_id m =
      let stopped = stop_runtime p plugin_id m in
      elim stopped.1 [
        | err e ↦ (stopped.0, err e)
        | ok u ↦ (save_enabled false plugin_id stopped.0, ok tt)
      ]

  -- The answer of `enable` in `reload` and the heartbeat: a failure is noted in the record.
  abbrev pub noting :
      String → PluginManager × Managed (Unit {0}) → PluginManager × Managed (Unit {0})
  noting plugin_id (m, ok u) = (m, ok u)
  noting plugin_id (m, err e) = (save_error e plugin_id m, err e)

  -- `reload`
  unfoldable pub reload : String → PluginManager → PluginManager × Managed (Unit {0})
  unfolding stop_runtime enable
  reload plugin_id m =
      if not (is_enabled (record_of plugin_id m))
      then (m, err "Plugin is disabled")
      else (let stopped = stop_runtime p plugin_id m in
          elim stopped.1 [
            | err e ↦ (stopped.0, err e)
            | ok u ↦ noting plugin_id (enable p plugin_id stopped.0)
          ])

  -- `set_runtime_mode`
  unfoldable pub set_runtime_mode : String → String → PluginManager → Managed PluginManager
  set_runtime_mode plugin_id mode m = do
    manifest ← manifest_of plugin_id m
    raise_if (is_legacy manifest || not (contains manifest.runtime.supported mode))
        "Plugin runtime mode is not supported"
    raise_if (is_enabled (record_of plugin_id m))
        "Disable the plugin before changing its runtime mode"
    ok (save_record plugin_id (put "runtime_mode" (str mode) (record_of plugin_id m)) m)

  -- `uninstall`, without the files of the package and of its data.
  unfoldable pub uninstall : String → PluginManager → PluginManager × Managed (Unit {0})
  unfolding disable
  uninstall plugin_id m =
      let disabled = disable plugin_id m in
      elim disabled.1 [
        | err e ↦ (disabled.0, err e)
        | ok u ↦ (
          record disabled.0 {
            installed = erase plugin_id disabled.0.installed;
            config = erase (config_id plugin_id) disabled.0.config;
          },
          ok tt,
        )
      ]

  abbrev pub attempts_of : String → PluginManager → ℕ
  attempts_of plugin_id m = elim (lookup plugin_id m.restart_attempts) [ none ↦ 0 | some n ↦ n ]

  abbrev pub restart_time : String → PluginManager → ℕ
  restart_time plugin_id m = elim (lookup plugin_id m.restart_after) [ none ↦ 0 | some n ↦ n ]

  -- The delay grows with the failures.
  unfoldable pub back_off : ℕ → String → PluginManager → PluginManager
  back_off now plugin_id m =
      let attempts = min (attempts_of plugin_id m + 1) 6 in
      record m {
        restart_attempts = insert plugin_id attempts m.restart_attempts;
        restart_after = insert plugin_id (now + min (2 ^ attempts) 60) m.restart_after;
      }

  abbrev pub restarted : ℕ → String → PluginManager × Managed (Unit {0}) → PluginManager
  restarted now plugin_id (m, ok u) = record m {
    restart_attempts = insert plugin_id 0 m.restart_attempts;
  }
  restarted now plugin_id (m, err e) = save_error e plugin_id (back_off now plugin_id m)

  -- The first loop of the heartbeat, for one plugin: it is started again when its time has come.
  unfoldable pub revive : ℕ → String → PluginManager → PluginManager
  unfolding enable back_off
  revive now plugin_id m =
      if not (is_enabled (record_of plugin_id m))
        || has plugin_id m.processes
        || ltb now (restart_time plugin_id m)
      then m
      else restarted now plugin_id (enable p plugin_id m)

  -- The second loop, for one process whose answer to the request for its health is `healthy`.
  unfoldable pub check_health :
      ℕ → String → Process → Managed (Unit {0}) → PluginManager → PluginManager
  unfolding back_off
  check_health now plugin_id process (ok u) m = m
  check_health now plugin_id process (err e) m =
      let r = put "error" (str (sanitize e)) (record_of plugin_id m) in
      let waited = p.others (unregistered p plugin_id (save_record plugin_id r m)) in
      let stopped : PluginManager = elim (p.stop process) [
        | ok u ↦ waited
        | err e' ↦ save_record plugin_id (put "error" (str (sanitize e')) r) waited
      ] in
      back_off now plugin_id (record stopped { processes = erase plugin_id stopped.processes })
