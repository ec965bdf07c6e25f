-- ===== src/Manager/State.antt =====
-- The state of `PluginManager` of backend/maintainer/plugin_manager.py, and the part of it that reads manifests
-- and records: `_record`, `_save_record`, `_v2_context`, the missing settings and `_check_dependencies`. Times are
-- whole numbers of seconds; the files of a plugin are its manifest.
use maintune.Base.{
  ℕ, String, ◌<>◌, Bool, true, false, not, ◌&&◌, ◌||◌, none, some, List, [], ◌∷◌, filter,
  if◌then◌else◌, ◌==◌, string_eq,
}
use maintune.Base.Dict.{Dict, lookup, insert}
use maintune.Base.Result.{Result, ok, err, ◌>>◌, raise_if}
use maintune.Json.{
  Value, bool, str, dict, list, Fields, end, field, get, put, truthy, truthy?, items,
}
use maintune.Settings.Schemas.{ProviderInput}
use maintune.PluginApi.Value.{root, validate_value}
use maintune.PluginApi.Schema.{texts_of}
use maintune.PluginApi.Registry.{PluginRegistry}
use maintune.Packages.{
  FieldType, secret, PluginConfigField, PluginManifest, PluginDependency, is_legacy,
}
use maintune.Json.{value_or_null, fields_of}

-- A process of a plugin: whether it runs, and the registrations that it sent.
pub record Process : Type 0 where
  pub is_running : Bool
  pub registrations : Value

pub record PluginManager : Type 0 where
  pub installed : Dict PluginManifest
  pub config : Dict Fields
  pub providers : Dict ProviderInput
  pub processes : Dict Process
  pub registry : PluginRegistry
  pub connections : Dict (List String)
  pub subscriptions : Dict (List String)
  pub restart_attempts : Dict ℕ
  pub restart_after : Dict ℕ
  pub ui_sessions : Dict (String × ℕ)
  pub active_invocations : Dict ℕ
  pub draining_plugins : List String

abbrev pub Managed : Type 0 → Type 0
Managed A = Result String A

abbrev pub config_id : String → String
config_id plugin_id = "plugin:" <> plugin_id

-- `_manifest`
abbrev pub manifest_of : String → PluginManager → Managed PluginManifest
manifest_of plugin_id m = elim (lookup plugin_id m.installed) [
  | none ↦ err "Plugin is not installed"
  | some manifest ↦ ok manifest
]

abbrev pub fresh_record : Fields
fresh_record =
    field "enabled" (bool false)
      (field "config" (dict end) (field "secrets" (dict end) (field "error" (str "") end)))

-- `_record`
abbrev pub record_of : String → PluginManager → Fields
record_of plugin_id m = elim (lookup (config_id plugin_id) m.config) [
  | none ↦ fresh_record
  | some data_of ↦ data_of
]

-- `_save_record`
abbrev pub save_record : String → Fields → PluginManager → PluginManager
save_record plugin_id data_of m = record m {
  config = insert (config_id plugin_id) data_of m.config;
}

abbrev pub is_enabled : Fields → Bool
is_enabled r = truthy? (get "enabled" r)

-- `record.get(key, {})`
abbrev pub part_of : String → Fields → Fields
part_of key r = fields_of (value_or_null (get key r))

-- `manifest.config_schema or {"type": "object", "properties": {}}`
abbrev pub schema_of : PluginManifest → Fields
schema_of manifest = elim manifest.config_schema [
  | none ↦ field "type" (str "object") (field "properties" (dict end) end)
  | some v ↦
      if truthy v
      then fields_of v
      else field "type" (str "object") (field "properties" (dict end) end)
]

abbrev pub properties_of : Fields → Fields
properties_of schema = part_of "properties" schema

-- `schema["properties"].get(name, {}).get("secret")`
abbrev pub is_secret_property : String → Fields → Bool
is_secret_property name properties = truthy? (get "secret" (part_of name properties))

abbrev pub is_secret_field : FieldType → Bool
is_secret_field secret = true
is_secret_field t = false

-- Whether a record has a value for a setting, which stands with the secrets or with the others.
abbrev pub has_setting : Fields → Bool → String → Bool
has_setting r is_secret name =
    truthy? (get name (if is_secret then part_of "secrets" r else part_of "config" r))

abbrev legacy_missing : Fields → List (String × PluginConfigField) → List String
legacy_missing r [] = []
legacy_missing r ((name, f) ∷ fs) =
    let rest = legacy_missing r fs in
    if f.required && not (has_setting r (is_secret_field f.type) name) then name ∷ rest else rest

abbrev pub required_names : Fields → List String
required_names schema = elim (value_or_null (get "required" schema)) [
  | list xs ↦ texts_of (items xs)
  | _ ↦ []
]

-- The required settings that a record lacks.
unfoldable pub missing_settings : PluginManifest → Fields → List String
unfolding is_legacy
missing_settings manifest r =
    if is_legacy manifest
    then legacy_missing r manifest.config
    else (let schema = schema_of manifest in
        filter (λ name. not (has_setting r (is_secret_property name (properties_of schema)) name))
          (required_names schema))

abbrev pub is_up : String → PluginManager → Bool
is_up plugin_id m = elim (lookup plugin_id m.processes) [ none ↦ false | some p ↦ p.is_running ]

abbrev check_dependency : PluginManager → PluginDependency → Managed (Unit {0})
check_dependency m d = elim (lookup d.id m.installed) [
  | none ↦ err "Required plugin is not installed"
  | some installed ↦
      raise_if (not (is_up d.id m)) "Required plugin is not running"
      >> raise_if (not (d.version == "*" || d.version == installed.version))
          "Required plugin version does not match"
]

-- `_check_dependencies`
unfoldable pub check_dependencies : PluginManager → List PluginDependency → Managed (Unit {0})
check_dependencies m [] = ok tt
check_dependencies m (d ∷ ds) =
    (if d.is_required then check_dependency m d else ok tt) >> check_dependencies m ds

-- The configuration of a plugin: what is stored, with the secrets decrypted.
module _ (decrypt : Value → Value) where
  -- The loop over the properties that decrypts the secrets of a record.
  abbrev pub with_secrets : Fields → Fields → Fields → Fields
  with_secrets r end values = values
  with_secrets r (field name f properties) values = with_secrets r properties (
      if truthy? (get "secret" (fields_of f)) && truthy? (get name (part_of "secrets" r))
      then put name (decrypt (value_or_null (get name (part_of "secrets" r)))) values
      else values)

  abbrev secret_names : Fields → Fields
  secret_names end = end
  secret_names (field name f properties) =
      let rest = secret_names properties in
      if truthy? (get "secret" (fields_of f)) then field name (bool true) rest else rest

  -- `_v2_context`, without the directory that it makes.
  unfoldable pub v2_context : PluginManifest → Fields → Managed Fields
  v2_context manifest r = do
    let schema = schema_of manifest
    let values = with_secrets r (properties_of schema) (part_of "config" r)
    elim (validate_value (dict schema) (dict values) (root "config")) [
      | err e ↦ err "config is invalid"
      | ok u ↦ ok tt
    ]
    ok (
        field "plugin_id" (str manifest.id) (
          field "plugin_version" (str manifest.version) (
            field "config" (dict values)
              (field "secret_fields" (dict (secret_names (properties_of schema))) end))))
