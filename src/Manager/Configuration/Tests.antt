-- ===== src/Manager/Configuration/Tests.antt =====
-- Settings that are saved, and the theorems on them at concrete data.
use maintune.Base.{◌≡◌, refl, String, true, some, none, [], ◌∷◌, string_eq, nat_eq}
use maintune.Base.Result.{ok, err, is_ok}
use maintune.Json.{Value, bool, str, dict, Fields, end, field}
use maintune.Json.Equality.{eq_value}
use maintune.PluginApi.Schema.{
  validate_schema, check_head, kind_of, check_kind, check_enum, check_object, check_tail,
  check_bounds, check_number, check_array, check_required,
}
use maintune.PluginApi.Value
use maintune.PluginApi.Value.{
  validate_value, check_self, has_kind, in_enum, check_members, check_names, required_of, is_closed,
  count_fits, in_range,
}
use maintune.PluginApi.Registry.{list_kind}
use maintune.Manager.Providers.{validate_provider_config}
use maintune.Packages.{PluginManifest, select, is_legacy}
use maintune.Manager.State.{
  PluginManager, Managed, record_of, part_of, v2_context, schema_of, properties_of,
}
use maintune.Manager.Configuration.{
  configure_v2, validate_field, set_properties, set_property, save_configuration,
}
use maintune.PluginApi.Value.Conforms.{Conforms}
use maintune.Manager.Configuration.Startable.{configure_v2-v2_context, settings_of}
use maintune.Manager.Views.{view_config, default_config}
use maintune.Manager.Views.Masked.{configure_v2-view_config}
use maintune.Manager.Configuration.Hidden.{HidesSecrets, Keeps, configure_v2-HidesSecrets}

abbrev kind : String → Fields
kind type = field "type" (str type) end

abbrev schema : Value
schema = dict (
    field "type" (str "object") (
      field "properties"
        (dict (
          field "city" (dict (kind "string")) (
            field "token" (dict (field "type" (str "string") (field "secret" (bool true) end)))
              end)))
        end))

abbrev weather : PluginManifest
weather = record {
  id = "my.weather";
  name = "Weather";
  version = "1.0.0";
  plugin_api = 2;
  api_version = none;
  entrypoint = [];
  capabilities = [];
  config = [];
  runtime = record { default = "isolated"; supported = "isolated" ∷ [] };
  python_dependencies = none;
  dependencies = [];
  config_schema = some schema;
  ui = none;
}

abbrev manager : Fields → PluginManager
manager r = record {
  installed = ("my.weather", weather) ∷ [];
  config = ("plugin:my.weather", r) ∷ [];
  providers = [];
  processes = [];
  registry = record { entries = []; next_order = 0 };
  connections = [];
  subscriptions = [];
  restart_attempts = [];
  restart_after = [];
  ui_sessions = [];
  active_invocations = [];
  draining_plugins = [];
}

-- A vault that writes the name of the secret in front.
abbrev seal : String → Value → Managed Value
seal name value = ok (dict (field name value end))

abbrev unseal : Value → Value
unseal (dict (field name value end)) = value
unseal v = v

abbrev sealed : Fields
sealed = field "token" (dict (field "token" (str "abc") end)) end

abbrev stored : Fields → Fields
stored config =
    field "enabled" (bool true)
      (field "config" (dict config) (field "secrets" (dict sealed) (field "error" (str "") end)))

abbrev before : PluginManager
before = manager (stored end)

abbrev form : Fields
form = field "city" (str "Bern") (field "token" (str "********") end)

abbrev after : PluginManager
after = manager (stored (field "city" (str "Bern") end))

saved : configure_v2 seal unseal weather (dict form) before ≡ ok after
unfolding configure_v2 set_properties set_property save_configuration validate_provider_config
    list_kind validate_value validate_schema string_eq nat_eq eq_value Value.check_node check_head
    kind_of check_kind check_enum check_object check_tail check_bounds check_number check_array
    check_required check_self has_kind in_enum check_members check_names required_of is_closed
    Value.properties_of count_fits in_range
saved = refl

configure_v2-v2_context_example :
    Conforms (schema_of weather) (dict (settings_of unseal weather (record_of "my.weather" after)))
    × (is_ok (v2_context unseal weather (record_of "my.weather" after)) ≡ true)
configure_v2-v2_context_example =
    configure_v2-v2_context seal unseal weather (dict form) before after saved

-- Nothing is stored before.
none_plain :
    HidesSecrets
      (properties_of (schema_of weather))
      (part_of "config" (record_of "my.weather" before))
unfolding string_eq
none_plain name is_secret = refl

configure_v2-HidesSecrets_example :
    HidesSecrets
      (properties_of (schema_of weather))
      (part_of "config" (record_of "my.weather" after))
configure_v2-HidesSecrets_example =
    configure_v2-HidesSecrets seal unseal weather (dict form) before after saved none_plain

sent_back :
    configure_v2 seal unseal weather
      (dict (view_config weather (record_of "my.weather" before)))
      before
    ≡ ok before
unfolding view_config configure_v2 set_properties set_property save_configuration
    validate_provider_config list_kind validate_value validate_schema string_eq nat_eq eq_value
    Value.check_node check_head kind_of check_kind check_enum check_object check_tail check_bounds
    check_number check_array check_required check_self has_kind in_enum check_members check_names
    required_of is_closed Value.properties_of count_fits in_range is_legacy
sent_back = refl

configure_v2-view_config_example :
    Keeps "token" (record_of "my.weather" before) (record_of "my.weather" before)
unfolding string_eq is_legacy nat_eq
configure_v2-view_config_example =
    configure_v2-view_config seal unseal weather "token" before before refl none_plain refl
      sent_back

hidden_default : default_config weather ≡ end
unfolding default_config is_legacy string_eq nat_eq
hidden_default = refl

no_option : validate_field select ("a" ∷ "b" ∷ []) (str "c") ≡ err "Invalid select configuration"
unfolding validate_field string_eq
no_option = refl
