-- ===== src/Manager/Lifecycle/Delay.antt =====
-- How long a plugin that keeps failing waits for its next start.
use maintune.Base.{String, List, [], ◌∷◌, ℕ}
use maintune.Manager.State.{PluginManager}
use maintune.Manager.Runtime.{Platform}
use maintune.Manager.Lifecycle.{back_off}

module _ (p : Platform) where
  -- Failures in a row, at the times given.
  abbrev pub fail_at : List ℕ → String → PluginManager → PluginManager
  fail_at [] id m = m
  fail_at (t ∷ ts) id m = fail_at ts id (back_off p t id m)
