-- ===== src/Manager/Configuration.antt =====
-- The settings of a plugin in backend/maintainer/plugin_manager.py: `configure`, `_configure_v2`,
-- `_validate_value`, `regenerate_secret` and `_reconcile_config`, without the view that is returned. The vault
-- encrypts with fresh randomness, so that `encrypt` takes the name of the secret beside its value.
pub mod Startable
pub mod Hidden
pub mod Tests
use maintune.Base.{
  String, ◌<>◌, Bool, true, false, not, ◌&&◌, ◌||◌, Option, none, some, List, [], ◌∷◌, all, ltb,
  length, if◌then◌else◌, ◌==◌, string_eq, contains,
}
use maintune.Base.Dict.{lookup}
use maintune.Base.Result.{Result, ok, err, ◌>>=◌, ◌>>◌, raise_if}
use maintune.Base.Text.{codes}
use maintune.Json.{
  Value, null, bool, int, str, list, dict, Fields, end, field, get, put, has_key, truthy?,
  value_or_null, fields_of, items, count_items, key_list,
}
use maintune.Store.{Env, to_text}
use maintune.PluginApi.Value.{root, validate_value}
use maintune.Packages.{
  FieldType, string, boolean, integer, select, string_list, secret, PluginConfigField,
  PluginManifest, is_legacy,
}
use maintune.Manager.State.{
  PluginManager, Managed, manifest_of, record_of, save_record, part_of, schema_of, properties_of,
  is_secret_property, is_secret_field, with_secrets,
}
use maintune.Manager.Providers.{validate_provider_config}

abbrev is_short_text : Value → Bool
is_short_text (str s) = not (ltb 500 (length (codes s)))
is_short_text v = false

abbrev is_option : List String → Value → Bool
is_option options (str s) = contains options s
is_option options v = false

abbrev is_field_value : FieldType → List String → Value → Bool
is_field_value string options (str s) = not (ltb 4000 (length (codes s)))
is_field_value boolean options (bool b) = true
is_field_value integer options (int z) = true
is_field_value select options value = is_option options value
is_field_value string_list options (list xs) =
    not (ltb 100 (count_items xs)) && all is_short_text (items xs)
is_field_value secret options value = true
is_field_value kind options value = false

abbrev type_name : FieldType → String
type_name boolean = "boolean"
type_name integer = "integer"
type_name select = "select"
type_name string_list = "string-list"
type_name kind = "string"

-- `_validate_value`
unfoldable pub validate_field : FieldType → List String → Value → Managed Value
validate_field kind options value =
    raise_if (not (is_field_value kind options value))
      ("Invalid " <> type_name kind <> " configuration")
    >> ok value

-- `value in (None, "", "********")`: what a form sends for a secret that stays as it is.
abbrev pub is_masked : Value → Bool
is_masked null = true
is_masked (str s) = s == "" || s == "********"
is_masked v = false

-- What a loop over the values has built: the plain settings and the encrypted ones.
pub record Kept : Type 0 where
  pub config : Fields
  pub secrets : Fields

abbrev pub kept_of : Fields → Kept
kept_of r = record { config = part_of "config" r; secrets = part_of "secrets" r }

-- `record.update({"config": config, "secrets": encrypted, "error": ""})`
abbrev pub configured_record : Kept → Fields → Fields
configured_record kept r =
    put "error" (str "") (put "secrets" (dict kept.secrets) (put "config" (dict kept.config) r))

abbrev pub all_known : List String → (String → Bool) → Managed (Unit {0})
all_known names is_known = raise_if (not (all is_known names)) "Unknown plugin configuration field"

-- `validate_value(field, value, f"config.{name}")`
abbrev pub check_value : Value → Value → Managed (Unit {0})
check_value schema value = elim (validate_value schema value (root "config")) [
  | err e ↦ err "config is invalid"
  | ok u ↦ ok tt
]

abbrev pub property_of : String → Fields → Value
property_of name properties = value_or_null (get name properties)

-- `complete`: the settings with the secrets decrypted.
abbrev pub complete_of : (Value → Value) → Fields → Kept → Fields
complete_of decrypt properties kept =
    with_secrets decrypt (field "secrets" (dict kept.secrets) end) properties kept.config

-- The end of `_configure_v2`, after its loop.
unfoldable pub save_configuration :
    (Value → Value) → PluginManifest → Kept → PluginManager → Managed PluginManager
save_configuration decrypt manifest kept m = do
  let schema = schema_of manifest
  let complete = complete_of decrypt (properties_of schema) kept
  check_value (dict schema) (dict complete)
  validate_provider_config manifest (field "config" (dict complete) end) m.registry
  ok (save_record manifest.id (configured_record kept (record_of manifest.id m)) m)

module _ (encrypt : String → Value → Managed Value) where
  abbrev encrypted : String → Value → Kept → Managed Kept
  encrypted name value kept =
      encrypt name value >>= λ e. ok (record kept { secrets = put name e kept.secrets })

  abbrev plain : String → Value → Kept → Kept
  plain name value kept = record kept { config = put name value kept.config }

  -- One turn of the loop of `_configure_v2`.
  unfoldable pub set_property : Fields → String → Value → Kept → Managed Kept
  set_property properties name value kept =
      if is_secret_property name properties
      then (if is_masked value
          then ok kept
          else (check_value (property_of name properties) value >> encrypted name value kept))
      else (check_value (property_of name properties) value >> ok (plain name value kept))

  unfoldable pub set_properties : Fields → Fields → Kept → Managed Kept
  set_properties properties end kept = ok kept
  set_properties properties (field name value values) kept =
      set_property properties name value kept >>= λ next. set_properties properties values next

  -- The loop of `configure` for a plugin of the first API.
  abbrev set_field : Env → PluginConfigField → String → Value → Kept → Managed Kept
  set_field env f name value kept =
      if is_secret_field f.type
      then (if is_masked value then ok kept else encrypted name (str (to_text env value)) kept)
      else (validate_field f.type f.options value >>= λ checked. ok (plain name checked kept))

  unfoldable pub set_fields : Env → List (String × PluginConfigField) → Fields → Kept → Managed Kept
  set_fields env fields end kept = ok kept
  set_fields env fields (field name value values) kept = elim (lookup name fields) [
    | none ↦ err "Unknown plugin configuration field"
    | some f ↦ set_field env f name value kept >>= λ next. set_fields env fields values next
  ]

  -- `_configure_v2`
  unfoldable pub configure_v2 :
      (Value → Value) → PluginManifest → Value → PluginManager → Managed PluginManager
  configure_v2 decrypt manifest (dict values) m = do
    let properties = properties_of (schema_of manifest)
    all_known (key_list values) (λ name. has_key name properties)
    kept ← set_properties properties values (kept_of (record_of manifest.id m))
    save_configuration decrypt manifest kept m
  configure_v2 decrypt manifest v m = err "Plugin configuration must be an object"

  -- `configure`
  unfoldable pub configure :
      Env → (Value → Value) → String → Fields → PluginManager → Managed PluginManager
  configure env decrypt plugin_id values m = do
    manifest ← manifest_of plugin_id m
    if not (is_legacy manifest) then configure_v2 decrypt manifest (dict values) m else (do
      all_known (key_list values)
          (λ name. elim (lookup name manifest.config) [ none ↦ false | some f ↦ true ])
      kept ← set_fields env manifest.config values (kept_of (record_of plugin_id m))
      ok (save_record plugin_id (configured_record kept (record_of plugin_id m)) m))

  abbrev is_secret_name : PluginManifest → String → Bool
  is_secret_name manifest name =
      if is_legacy manifest
      then elim (lookup name manifest.config) [ none ↦ false | some f ↦ is_secret_field f.type ]
      else is_secret_property name (properties_of (schema_of manifest))

  -- `regenerate_secret`, with the bridge token that it generates.
  unfoldable pub regenerate_secret :
      String → String → String → PluginManager → Managed PluginManager
  regenerate_secret token plugin_id name m = do
    manifest ← manifest_of plugin_id m
    raise_if (not (is_secret_name manifest name)) "Secret field not found"
    e ← encrypt name (str token)
    let r = record_of plugin_id m
    ok (save_record plugin_id (put "secrets" (dict (put name e (part_of "secrets" r))) r) m)

  abbrev migrated_value : Fields → String → Fields → Option Value
  migrated_value migrated name f = elim (get name migrated) [
    | some v ↦ some v
    | none ↦ if truthy? (get "secret" f) then none else get "default" f
  ]

  -- The loop of `_reconcile_config`, with `complete` beside what is kept.
  unfoldable pub reconcile : Fields → Fields → Kept → Fields → Managed (Kept × Fields)
  reconcile migrated end kept complete = ok (kept, complete)
  reconcile migrated (field name f properties) kept complete =
      elim (migrated_value migrated name (fields_of f)) [
        | none ↦ reconcile migrated properties kept complete
        | some value ↦
            check_value f value
            >> ((if truthy? (get "secret" (fields_of f))
                  then encrypted name value kept
                  else ok (plain name value kept))
                >>= λ next. reconcile migrated properties next (put name value complete))
      ]

  -- `_reconcile_config`
  unfoldable pub reconcile_config : PluginManifest → Fields → Value → Managed Fields
  reconcile_config manifest old_record (dict migrated) = do
    let schema = schema_of manifest
    done ← reconcile migrated (properties_of schema) (record { config = end; secrets = end }) end
    check_value (dict schema) (dict done.1)
    ok (put "secrets" (dict done.0.secrets) (put "config" (dict done.0.config) old_record))
  reconcile_config manifest old_record v = err "Plugin migration must return an object"
