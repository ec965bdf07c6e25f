-- ===== src/Manager/Events/Tests.antt =====
-- Sessions and events of a plugin, and the theorems on them at concrete data.
use maintune.Base.{inr, ◌≡◌, refl, true, some, none, [], ◌∷◌, string_eq, nat_eq, ◌==◌}
use maintune.Base.Result.{ok}
use maintune.Base.Text.{codes}
use maintune.Json.{bool, str, end, field}
use maintune.Packages.{PluginManifest}
use maintune.Manager.State.{PluginManager}
use maintune.Manager.Sessions.{issue_ui_session}
use maintune.Manager.Outbox.{queue}
use maintune.Manager.Events.{Delivery, publish, outbox_of, publish-queued, IsInterested}

abbrev chat : PluginManifest
chat = record {
  id = "my.chat";
  name = "Chat";
  version = "1.0.0";
  plugin_api = 1;
  api_version = none;
  entrypoint = [];
  capabilities = "event.subscribe" ∷ [];
  config = [];
  runtime = record { default = "isolated"; supported = "isolated" ∷ [] };
  python_dependencies = none;
  dependencies = [];
  config_schema = none;
  ui = some (codes "ui/index.html");
}

abbrev manager : PluginManager
manager = record {
  installed = ("my.chat", chat) ∷ [];
  config = ("plugin:my.chat", field "enabled" (bool true) end) ∷ [];
  providers = [];
  processes = [];
  registry = record { entries = []; next_order = 0 };
  connections = ("my.chat", "a" ∷ "b" ∷ []) ∷ [];
  subscriptions = ("my.chat", "task.started" ∷ []) ∷ [];
  restart_attempts = [];
  restart_after = [];
  ui_sessions = [];
  active_invocations = [];
  draining_plugins = [];
}

abbrev with_session : PluginManager
with_session = record manager { ui_sessions = ("secret", ("my.chat", 400)) ∷ [] }

issued : issue_ui_session (λ s. s) "my.chat" "secret" 100 manager ≡ ok with_session
unfolding issue_ui_session string_eq
issued = refl

abbrev empty : Delivery
empty = record { connections = manager.connections; outboxes = [] }

publish-queued_example :
    (IsInterested "task.started" manager chat
      → outbox_of "my.chat"
          (publish (λ s. s == "a") "task.started" "evt_1" (str "started") manager empty)
        ≡ queue "evt_1" (str "started") (outbox_of "my.chat" empty))
    × ((IsInterested "task.started" manager chat → ⊥)
        → outbox_of "my.chat"
            (publish (λ s. s == "a") "task.started" "evt_1" (str "started") manager empty)
          ≡ outbox_of "my.chat" empty)
unfolding string_eq
publish-queued_example =
    publish-queued (λ s. s == "a") "task.started" "evt_1" (str "started") manager "my.chat" chat
      empty refl refl

-- The plugin of the example is one that gets the event.
is_interested : IsInterested "task.started" manager chat
unfolding string_eq
is_interested = (refl, refl, inr (inr ("task.started" ∷ [], refl, refl)))
