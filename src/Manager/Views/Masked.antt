-- ===== src/Manager/Views/Masked.antt =====
-- What a view shows of secrets, and a form that sends it back.
use maintune.Base.{◌≡◌, refl, String, true, false, none, string_eq, arith, inl, inr, Bool-cases}
use maintune.Base.Result.{ok}
use maintune.Json.{Value, dict, Fields, end, field, get, put, truthy?}
use maintune.Packages.{PluginManifest, is_legacy}
use maintune.Manager.State.{
  PluginManager, Managed, record_of, part_of, schema_of, properties_of, is_secret_property,
}
use maintune.Manager.Configuration.{configure_v2, is_masked}
use maintune.Manager.Configuration.Hidden.{HidesSecrets, Keeps, is_left, configure_v2-Keeps}
use maintune.Manager.Views.{mask, mask_properties, view_config}

mask-masked : (secrets : Fields) (name : String) → is_masked (mask secrets name) ≡ true
unfolding string_eq
mask-masked secrets name = elim (Bool-cases (truthy? (get name secrets))) [
  | inl stored ↦ rw stored refl
  | inr missing ↦ rw missing refl
]

absent-left :
    (properties : Fields) (other : String) (config : Fields)
    → get other config ≡ none
    → is_left properties other config ≡ true
absent-left properties other end h = refl
absent-left properties other (field name v config) h =
    ground (arith, absent-left properties other config)

put-left :
    (properties : Fields) (other name : String) (v : Value) (config : Fields)
    → is_secret_property other properties ≡ true
    → is_masked v ≡ true
    → is_left properties other config ≡ true
    → is_left properties other (put name v config) ≡ true
put-left properties other name v end is_secret masked left = ground arith
put-left properties other name v (field k w config) is_secret masked left =
    ground (arith, put-left properties other name v config is_secret masked)

mask_properties-left :
    (properties secrets : Fields) (other : String) (ps config : Fields)
    → is_secret_property other properties ≡ true
    → is_left properties other config ≡ true
    → is_left properties other (mask_properties secrets ps config) ≡ true
mask_properties-left properties secrets other end config is_secret left = left
mask_properties-left properties secrets other (field name f ps) config is_secret left =
    mask_properties-left properties secrets other ps _ is_secret (
      ground (
        arith,
        put-left properties other name (mask secrets name) config is_secret
            (mask-masked secrets name),
      ))

view_config-left :
    (manifest : PluginManifest) (r : Fields) (other : String)
    → is_legacy manifest ≡ false
    → is_left (properties_of (schema_of manifest)) other (
        mask_properties
          (part_of "secrets" r)
          (properties_of (schema_of manifest))
          (part_of "config" r))
      ≡ true
    → is_left (properties_of (schema_of manifest)) other (view_config manifest r) ≡ true
unfolding view_config
view_config-left manifest r other current shown = rw current shown

-- Settings that are sent back as a view shows them change no secret: what a plugin of the second API has stored for a
-- secret is still stored, as long as no secret stands among its plain settings.
pub configure_v2-view_config :
    (encrypt : String → Value → Managed Value) (decrypt : Value → Value) (manifest : PluginManifest)
    (other : String) (m m' : PluginManager)
    → is_legacy manifest ≡ false
    → HidesSecrets (properties_of (schema_of manifest)) (part_of "config" (record_of manifest.id m))
    → is_secret_property other (properties_of (schema_of manifest)) ≡ true
    → configure_v2 encrypt decrypt manifest
        (dict (view_config manifest (record_of manifest.id m)))
        m
      ≡ ok m'
    → Keeps other (record_of manifest.id m) (record_of manifest.id m')
configure_v2-view_config encrypt decrypt manifest other m m' current hidden is_secret done =
    let r = record_of manifest.id m in
    let properties = properties_of (schema_of manifest) in
    let shown =
      mask_properties-left properties (part_of "secrets" r) other properties (part_of "config" r)
        is_secret (absent-left properties other (part_of "config" r) (hidden other is_secret)) in
    configure_v2-Keeps encrypt decrypt manifest (view_config manifest r) other m m' done
      (view_config-left manifest r other current shown)
