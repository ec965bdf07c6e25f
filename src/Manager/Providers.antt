-- ===== src/Manager/Providers.antt =====
-- What `enable` of backend/maintainer/plugin_manager.py makes of the providers that a plugin registers:
-- `_validate_provider_config` and `_sync_model_providers`.
use maintune.Base.{
  String, ◌<>◌, Bool, true, false, not, ◌&&◌, none, some, List, [], ◌∷◌, filter, map, ◌==◌,
  string_eq,
}
use maintune.Base.Dict.{Dict, lookup, insert}
use maintune.Base.Result.{ok, err, ◌>>◌, raise_if}
use maintune.Base.Text.{cut}
use maintune.Json.{str, dict, Fields, end, field, get, truthy?, list, items}
use maintune.Json.Equality.{eq_value}
use maintune.Settings.Schemas.{
  ProviderInput, plugin, ModelDefinition, no_capabilities, model_defaults,
}
use maintune.Settings.Checks.{valid_provider_type, valid_models}
use maintune.PluginApi.Schema.{texts_of}
use maintune.PluginApi.Value.{root, validate_value}
use maintune.PluginApi.Registration.{ExtensionRegistration}
use maintune.PluginApi.Registry.{PluginRegistry, list_kind}
use maintune.Packages.{PluginManifest}
use maintune.Json.{value_or_null, fields_of}
use maintune.Manager.State.{Managed, part_of, schema_of, properties_of}

abbrev pub provider_items : String → PluginRegistry → List ExtensionRegistration
provider_items plugin_id g = filter (λ r. r.plugin_id == plugin_id) (list_kind (some "provider") g)

abbrev same_flag : Bool → Bool → Bool
same_flag true b = b
same_flag false b = not b

-- The properties of a provider's configuration against those of the manifest.
abbrev declared : Fields → Fields → Bool
declared manifest_properties end = true
declared manifest_properties (field name f properties) =
    let rest = declared manifest_properties properties in
    let source = part_of name manifest_properties in
    truthy? (get name manifest_properties)
    && eq_value (value_or_null (get "type" source)) (value_or_null (get "type" (fields_of f)))
    && same_flag (truthy? (get "secret" source)) (truthy? (get "secret" (fields_of f)))
    && rest

abbrev selected : Fields → Fields → Fields
selected values end = end
selected values (field name f properties) =
    let rest = selected values properties in
    elim (get name values) [ none ↦ rest | some v ↦ field name v rest ]

abbrev check_provider : Fields → Fields → ExtensionRegistration → Managed (Unit {0})
check_provider manifest_properties values item =
    let schema = value_or_null (get "config_schema" item.metadata) in
    let properties = properties_of (fields_of schema) in
    raise_if (not (declared manifest_properties properties))
      "Provider config must be declared with the same type and secret status in the plugin manifest"
    >> elim (validate_value schema (dict (selected values properties)) (root "provider_config")) [
      | err e ↦ err "provider_config is invalid"
      | ok u ↦ ok tt
    ]

abbrev check_providers : Fields → Fields → List ExtensionRegistration → Managed (Unit {0})
check_providers manifest_properties values [] = ok tt
check_providers manifest_properties values (item ∷ rest) =
    check_provider manifest_properties values item
    >> check_providers manifest_properties values rest

-- `_validate_provider_config`
unfoldable pub validate_provider_config :
    PluginManifest → Fields → PluginRegistry → Managed (Unit {0})
validate_provider_config manifest context g =
    check_providers (properties_of (schema_of manifest)) (part_of "config" context)
      (provider_items manifest.id g)

abbrev model_named : String → ModelDefinition
model_named id = record {
  id = id;
  display_name = none;
  enabled = true;
  capabilities = no_capabilities;
  defaults = model_defaults;
}

abbrev provider_row : PluginManifest → ExtensionRegistration → ProviderInput
provider_row manifest item = record {
  name = cut 80 (manifest.name <> " · " <> item.name);
  type = plugin;
  base_url = "";
  plugin_provider = some item.identifier;
  models = map model_named (elim (value_or_null (get "models" item.metadata)) [
    | list xs ↦ texts_of (items xs)
    | _ ↦ []
  ]);
}

abbrev pub is_model_provider : ExtensionRegistration → Bool
is_model_provider r = eq_value (value_or_null (get "provider_kind" r.metadata)) (str "model")

module _ (sha256 : String → String) where
  -- `model_provider_row_id`
  abbrev row_id : String → String
  row_id identifier = "plugin-" <> cut 29 (sha256 identifier)

  abbrev collides : ExtensionRegistration → Dict ProviderInput → Bool
  collides item rows = elim (lookup (row_id item.identifier) rows) [
    | none ↦ false
    | some existing ↦ elim existing.plugin_provider [
      | none ↦ true
      | some p ↦ not (p == item.identifier)
    ]
  ]

  -- The loop of `_sync_model_providers`, whose session commits as a whole.
  unfoldable pub sync_providers :
      PluginManifest
      → List ExtensionRegistration
      → Dict ProviderInput
      → Managed (Dict ProviderInput)
  sync_providers manifest [] rows = ok rows
  sync_providers manifest (item ∷ rest) rows = do
    raise_if (collides item rows)
        "Plugin Model Provider identifier collides with an existing provider"
    valid_models (provider_row manifest item).models
    valid_provider_type (provider_row manifest item)
    sync_providers manifest rest (insert (row_id item.identifier) (provider_row manifest item) rows)
