-- ===== src/Manager/Sessions.antt =====
-- The sessions of the pages of plugins in backend/maintainer/plugin_manager.py: `issue_ui_session` and
-- `valid_ui_session`, with the token and the clock as parameters. Times are whole numbers of seconds.
use maintune.Base.{
  ℕ, ◌+◌, ◌≡◌, String, Bool, false, not, ◌&&◌, ◌||◌, none, some, inl, inr, arith, ltb, ◌==◌,
  string_eq,
}
use maintune.Base.Dict.{lookup, insert, lookup-insert}
use maintune.Base.Result.{ok, ◌>>=◌, ◌>>◌, raise_if, Result-cases}
use maintune.Packages.{PluginManifest, is_empty}
use maintune.Manager.State.{PluginManager, Managed, manifest_of, record_of, is_enabled}

abbrev has_page : PluginManifest → Bool
has_page manifest = elim manifest.ui [ none ↦ false | some page ↦ not (is_empty page) ]

module _ (sha256 : String → String) where
  abbrev opened : String → String → ℕ → PluginManager → PluginManager
  opened plugin_id token now m = record m {
    ui_sessions = insert (sha256 token) (plugin_id, now + 300) m.ui_sessions;
  }

  -- `issue_ui_session`
  unfoldable pub issue_ui_session : String → String → ℕ → PluginManager → Managed PluginManager
  issue_ui_session plugin_id token now m = do
    manifest ← manifest_of plugin_id m
    raise_if (not (has_page manifest) || not (is_enabled (record_of plugin_id m)))
        "Plugin UI is not available"
    ok (opened plugin_id token now m)

  -- `valid_ui_session`
  unfoldable pub valid_ui_session : String → String → ℕ → PluginManager → Bool
  valid_ui_session plugin_id token now m =
      not (token == "") && elim (lookup (sha256 token) m.ui_sessions) [
        | none ↦ false
        | some entry ↦ entry.0 == plugin_id && ltb now entry.1 && is_enabled (record_of plugin_id m)
      ]

  -- A session that is issued is valid for the plugin that it was issued for and for no other, until 300 seconds have
  -- passed, and only while that plugin is enabled.
  issue_ui_session-valid :
      (plugin_id token : String) (now : ℕ) (m m' : PluginManager) (other : String) (later : ℕ)
      → issue_ui_session plugin_id token now m ≡ ok m'
      → valid_ui_session other token later m' ≡ (
          not (token == "")
          && (plugin_id == other && ltb later (now + 300) && is_enabled (record_of other m)))
  unfolding issue_ui_session valid_ui_session
  issue_ui_session-valid plugin_id token now m m' other later done =
      elim (Result-cases (manifest_of plugin_id m)) [
        | inl (e, raised) ↦ ground arith
        | inr (manifest, installed) ↦
            let same : opened plugin_id token now m ≡ m' = ground arith in
            rw (← same) (
              ground (
                arith,
                lookup-insert (sha256 token) (sha256 token) (plugin_id, now + 300) m.ui_sessions,
              ))
      ]
