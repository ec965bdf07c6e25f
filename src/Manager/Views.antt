-- ===== src/Manager/Views.antt =====
-- What `PluginManager` of backend/maintainer/plugin_manager.py shows of the settings of a plugin, `config` in `view` and
-- `_v2_ui_schema`, and what `install` stores of them first.
pub mod Masked
use maintune.Base.{
  String, Bool, true, false, not, ◌&&◌, ◌||◌, Option, none, some, List, [], ◌∷◌, if◌then◌else◌,
  ◌==◌, string_eq, contains,
}
use maintune.Json.{
  Value, null, bool, str, list, dict, nil, Fields, end, field, get, put, has_key, truthy?, truthy,
  value_or_null, fields_of,
}
use maintune.Json.Equality.{eq_value}
use maintune.Packages.{PluginConfigField, PluginManifest, is_legacy}
use maintune.Manager.State.{
  PluginManager, record_of, save_record, part_of, schema_of, properties_of, is_secret_field,
  required_names,
}

-- `"********" if record.get("secrets", {}).get(name) else ""`
abbrev pub mask : Fields → String → Value
mask secrets name = if truthy? (get name secrets) then str "********" else str ""

abbrev pub mask_properties : Fields → Fields → Fields → Fields
mask_properties secrets end config = config
mask_properties secrets (field name f properties) config =
    mask_properties secrets properties
      (if truthy? (get "secret" (fields_of f)) then put name (mask secrets name) config else config)

abbrev mask_fields : Fields → List (String × PluginConfigField) → Fields → Fields
mask_fields secrets [] config = config
mask_fields secrets ((name, f) ∷ fields) config =
    mask_fields secrets fields
      (if is_secret_field f.type then put name (mask secrets name) config else config)

-- `config` of `view`
unfoldable pub view_config : PluginManifest → Fields → Fields
view_config manifest r =
    if is_legacy manifest
    then mask_fields (part_of "secrets" r) manifest.config (part_of "config" r)
    else mask_properties (part_of "secrets" r) (properties_of (schema_of manifest))
        (part_of "config" r)

abbrev has_type : String → Fields → Bool
has_type type f = eq_value (value_or_null (get "type" f)) (str type)

abbrev or_default : Value → Option Value → Value
or_default default none = default
or_default default (some v) = v

-- `kind` of `_v2_ui_schema`
unfoldable pub ui_kind : Fields → Value
ui_kind f =
    if truthy? (get "secret" f)
    then str "secret"
    else if has_key "enum" f
    then str "select"
    else if has_type "integer" f
    then str "integer"
    else if has_type "array" f && has_type "string" (part_of "items" f)
    then str "string_list"
    else if has_type "array" f || has_type "object" f
    then str "json"
    else or_default (str "string") (get "type" f)

abbrev ui_field : List String → String → Fields → Value
ui_field required name f = dict (
    field "type" (ui_kind f) (
      field "title" (or_default (str name) (get "title" f)) (
        field "description" (or_default (str "") (get "description" f)) (
          field "required" (bool (contains required name)) (
            field "default" (value_or_null (get "default" f))
              (field "options" (or_default (list nil) (get "enum" f)) end))))))

abbrev ui_fields : List String → Fields → Fields
ui_fields required end = end
ui_fields required (field name f properties) =
    field name (ui_field required name (fields_of f)) (ui_fields required properties)

-- `_v2_ui_schema`
unfoldable pub v2_ui_schema : Option Value → Fields
v2_ui_schema none = end
v2_ui_schema (some schema) =
    if truthy schema
    then ui_fields (required_names (fields_of schema)) (properties_of (fields_of schema))
    else end

abbrev is_null : Value → Bool
is_null null = true
is_null v = false

abbrev field_defaults : List (String × PluginConfigField) → Fields
field_defaults [] = end
field_defaults ((name, f) ∷ fields) =
    let rest = field_defaults fields in
    if not (is_secret_field f.type) && not (is_null f.default)
    then field name f.default rest
    else rest

abbrev pub property_defaults : Fields → Fields
property_defaults end = end
property_defaults (field name f properties) =
    let rest = property_defaults properties in
    if not (truthy? (get "secret" (fields_of f))) && has_key "default" (fields_of f)
    then field name (value_or_null (get "default" (fields_of f))) rest
    else rest

-- The first settings of `install`.
unfoldable pub default_config : PluginManifest → Fields
default_config manifest =
    if is_legacy manifest
    then field_defaults manifest.config
    else property_defaults (properties_of (schema_of manifest))

-- The record that `install` saves, with the clock and the hash of the package.
unfoldable pub install_record : PluginManifest → Value → String → PluginManager → PluginManager
install_record manifest now package_sha256 m =
    save_record manifest.id
      (field "enabled" (bool false) (
        field "config" (dict (default_config manifest)) (
          field "secrets" (dict end) (
            field "error" (str "")
              (field "installed_at" now (field "package_sha256" (str package_sha256) end))))))
      m
