-- ===== src/Manager/Configuration/Startable.antt =====
-- A configuration that `_configure_v2` saved, as `enable` reads it.
use maintune.Base.{◌≡◌, refl, String, true, string_eq, arith, ◌∙◌, ap, sym}
use maintune.Base.Dict.{lookup-insert}
use maintune.Base.Result.{ok, ◌>>=◌, ◌>>◌, >>=-eq-ok, >>-eq-ok, ok-injective, is_ok}
use maintune.Json.{Value, dict, Fields, end, field, has_key, key_list}
use maintune.Json.Entries.{get-put}
use mathlib.Core.Path.{subst}
use maintune.PluginApi.Value.{root, schema_fields}
use maintune.PluginApi.Value.Conforms.{Conforms}
use maintune.PluginApi.Value.Conforms.Correct.{validate_value-ok_iff}
use maintune.Packages.{PluginManifest}
use maintune.Manager.State.{
  PluginManager, Managed, record_of, part_of, with_secrets, v2_context, save_record, config_id,
  schema_of, properties_of,
}
use maintune.Manager.Providers.{validate_provider_config}
use maintune.Manager.Configuration.{
  Kept, kept_of, configured_record, complete_of, set_properties, configure_v2, check_value,
  all_known, save_configuration,
}

record_of-save_record :
    (id : String) (r : Fields) (m : PluginManager) → record_of id (save_record id r m) ≡ r
record_of-save_record id r m =
    ground (arith, lookup-insert (config_id id) (config_id id) r m.config)

pub part_of-config :
    (kept : Kept) (r : Fields) → part_of "config" (configured_record kept r) ≡ kept.config
unfolding string_eq
part_of-config kept r =
    rw (get-put "config" "error", get-put "config" "secrets", get-put "config" "config") refl

pub part_of-secrets :
    (kept : Kept) (r : Fields) → part_of "secrets" (configured_record kept r) ≡ kept.secrets
unfolding string_eq
part_of-secrets kept r = rw (get-put "secrets" "error", get-put "secrets" "secrets") refl

-- Of a record, only its secrets are read.
with_secrets_of :
    (decrypt : Value → Value) (r properties values : Fields)
    → with_secrets decrypt r properties values
      ≡ with_secrets decrypt (field "secrets" (dict (part_of "secrets" r)) end) properties values
unfolding string_eq
with_secrets_of decrypt r end values = refl
with_secrets_of decrypt r (field name f properties) values = with_secrets_of decrypt r properties _

complete_of-configured_record :
    (decrypt : Value → Value) (properties : Fields) (kept : Kept) (r : Fields)
    → with_secrets decrypt
        (configured_record kept r)
        properties
        (part_of "config" (configured_record kept r))
      ≡ complete_of decrypt properties kept
complete_of-configured_record decrypt properties kept r =
    with_secrets_of decrypt (configured_record kept r) properties _
    ∙ rw (part_of-config kept r, part_of-secrets kept r) refl

pub saved_as :
    (decrypt : Value → Value) (manifest : PluginManifest) (kept : Kept) (m m' : PluginManager)
    → save_configuration decrypt manifest kept m ≡ ok m'
    → (check_value
          (dict (schema_of manifest))
          (dict (complete_of decrypt (properties_of (schema_of manifest)) kept))
        ≡ ok tt)
      × (record_of manifest.id m' ≡ configured_record kept (record_of manifest.id m))
unfolding save_configuration
saved_as decrypt manifest kept m m' done =
    let complete = complete_of decrypt (properties_of (schema_of manifest)) kept in
    let r = configured_record kept (record_of manifest.id m) in
    let m'' = save_record manifest.id r m in
    let providers =
      validate_provider_config manifest (field "config" (dict complete) end) m.registry in
    let valid =
      >>-eq-ok (check_value (dict (schema_of manifest)) (dict complete)) (providers >> ok m'')
        done in
    let saved = >>-eq-ok providers (ok m'') valid.1 in
    (
      valid.0,
      ap (record_of manifest.id) (sym (ok-injective m'' m' saved.1))
          ∙ record_of-save_record manifest.id r m,
    )

context_of :
    (decrypt : Value → Value) (manifest : PluginManifest) (kept : Kept) (r : Fields)
    → check_value
        (dict (schema_of manifest))
        (dict (complete_of decrypt (properties_of (schema_of manifest)) kept))
      ≡ ok tt
    → is_ok (v2_context decrypt manifest (configured_record kept r)) ≡ true
unfolding v2_context
context_of decrypt manifest kept r valid =
    let same = complete_of-configured_record decrypt (properties_of (schema_of manifest)) kept r in
    rw (same, valid) refl

-- The settings of a record, with the secrets decrypted.
abbrev pub settings_of : (Value → Value) → PluginManifest → Fields → Fields
settings_of decrypt manifest r =
    with_secrets decrypt r (properties_of (schema_of manifest)) (part_of "config" r)

check_value-Conforms :
    (schema v : Value) → check_value schema v ≡ ok tt → Conforms (schema_fields schema) v
check_value-Conforms schema v h =
    ((validate_value-ok_iff schema v (root "config")).0 (ground arith)).1

-- What a call of `_configure_v2` that succeeds has done.
pub configure_v2-ok :
    (encrypt : String → Value → Managed Value) (decrypt : Value → Value) (manifest : PluginManifest)
    (values : Fields) (m m' : PluginManager)
    → configure_v2 encrypt decrypt manifest (dict values) m ≡ ok m'
    → (kept : Kept) × (set_properties encrypt
          (properties_of (schema_of manifest))
          values
          (kept_of (record_of manifest.id m))
        ≡ ok kept)
      × (save_configuration decrypt manifest kept m ≡ ok m')
unfolding configure_v2
configure_v2-ok encrypt decrypt manifest values m m' done =
    let properties = properties_of (schema_of manifest) in
    let loop = set_properties encrypt properties values (kept_of (record_of manifest.id m)) in
    let save : Kept → Managed PluginManager = λ kept. save_configuration decrypt manifest kept m in
    let known =
      >>-eq-ok (all_known (key_list values) (λ name. has_key name properties)) (loop >>= save)
        done in
    >>=-eq-ok loop save known.1

-- The settings that are saved for a plugin of the second API conform to its schema with the secrets decrypted, so that
-- `_v2_context` comes through for the record.
pub configure_v2-v2_context :
    (encrypt : String → Value → Managed Value) (decrypt : Value → Value) (manifest : PluginManifest)
    (values : Value) (m m' : PluginManager)
    → configure_v2 encrypt decrypt manifest values m ≡ ok m'
    → Conforms (schema_of manifest) (dict (settings_of decrypt manifest (record_of manifest.id m')))
      × (is_ok (v2_context decrypt manifest (record_of manifest.id m')) ≡ true)
unfolding configure_v2
configure_v2-v2_context encrypt decrypt manifest (dict values) m m' done =
    let (kept, looped, rest) = configure_v2-ok encrypt decrypt manifest values m m' done in
    let (valid, stored) = saved_as decrypt manifest kept m m' rest in
    let r = configured_record kept (record_of manifest.id m) in
    rw (stored) (
      subst (λ values. Conforms (schema_of manifest) (dict values))
          (sym (
            complete_of-configured_record decrypt (properties_of (schema_of manifest)) kept
              (record_of manifest.id m)))
          (check_value-Conforms (dict (schema_of manifest))
            (dict (complete_of decrypt (properties_of (schema_of manifest)) kept)) valid),
      context_of decrypt manifest kept (record_of manifest.id m) valid,
    )
configure_v2-v2_context encrypt decrypt manifest v m m' done = cc
