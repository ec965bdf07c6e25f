-- ===== src/Manager/Configuration/Hidden.antt =====
-- Where a configuration keeps its secrets, and what a form leaves as it is.
use maintune.Base.{
  ◌≡◌, String, Bool, true, not, ◌&&◌, ◌||◌, none, ◌==◌, string_eq, arith, inl, inr, ◌∙◌,
}
use maintune.Base.Result.{ok, >>=-eq-ok, Result-cases}
use maintune.Json.{Value, dict, Fields, end, field, get}
use maintune.Json.Entries.{get-put}
use maintune.Packages.{PluginManifest}
use maintune.Manager.State.{
  PluginManager, Managed, record_of, part_of, schema_of, properties_of, is_secret_property,
}
use maintune.Manager.Configuration.{
  Kept, kept_of, set_property, set_properties, configure_v2, is_masked,
}
use maintune.Manager.Configuration.Startable.{
  saved_as, configure_v2-ok, part_of-config, part_of-secrets,
}

-- No secret stands among the plain settings.
abbrev pub HidesSecrets : Fields → Fields → Type 0
HidesSecrets properties config =
    (name : String) → is_secret_property name properties ≡ true → get name config ≡ none

-- Whether a form leaves a setting as it is: it does not name it, or sends a mask for a secret.
abbrev pub is_left : Fields → String → Fields → Bool
is_left properties other end = true
is_left properties other (field name value values) =
    (not (other == name) || is_secret_property name properties && is_masked value)
    && is_left properties other values

-- A setting stands as before, plain and encrypted.
abbrev pub Keeps : String → Fields → Fields → Type 0
Keeps other r r' =
    (get other (part_of "config" r') ≡ get other (part_of "config" r))
    × (get other (part_of "secrets" r') ≡ get other (part_of "secrets" r))

module _ (encrypt : String → Value → Managed Value) (properties : Fields) where
  set_property-HidesSecrets :
      (name : String) (value : Value) (kept kept' : Kept)
      → set_property encrypt properties name value kept ≡ ok kept'
      → HidesSecrets properties kept.config
      → HidesSecrets properties kept'.config
  unfolding set_property
  set_property-HidesSecrets name value kept kept' done hidden other is_secret =
      ground (arith, get-put other name value kept.config, hidden other)

  set_properties-HidesSecrets :
      (values : Fields) (kept kept' : Kept)
      → set_properties encrypt properties values kept ≡ ok kept'
      → HidesSecrets properties kept.config
      → HidesSecrets properties kept'.config
  unfolding set_properties
  set_properties-HidesSecrets end kept kept' done hidden =
      λ other is_secret. ground (arith, hidden other)
  set_properties-HidesSecrets (field name value values) kept kept' done hidden =
      let (next, first, rest) =
        >>=-eq-ok (set_property encrypt properties name value kept)
          (set_properties encrypt properties values) done in
      set_properties-HidesSecrets values next kept' rest
        (set_property-HidesSecrets name value kept next first hidden)

  set_property-left :
      (other name : String) (value : Value) (kept kept' : Kept)
      → set_property encrypt properties name value kept ≡ ok kept'
      → (not (other == name) || is_secret_property name properties && is_masked value) ≡ true
      → (get other kept'.config ≡ get other kept.config)
        × (get other kept'.secrets ≡ get other kept.secrets)
  unfolding set_property
  set_property-left other name value kept kept' done left =
      elim (Result-cases (encrypt name value)) [
        | inl (e, raised) ↦ ground (arith, get-put other name value kept.config)
        | inr (e, encrypted) ↦
            ground (arith, get-put other name value kept.config, get-put other name e kept.secrets)
      ]

  set_properties-left :
      (other : String) (values : Fields) (kept kept' : Kept)
      → set_properties encrypt properties values kept ≡ ok kept'
      → is_left properties other values ≡ true
      → (get other kept'.config ≡ get other kept.config)
        × (get other kept'.secrets ≡ get other kept.secrets)
  unfolding set_properties
  set_properties-left other end kept kept' done left = ground arith
  set_properties-left other (field name value values) kept kept' done left =
      let (next, first, rest) =
        >>=-eq-ok (set_property encrypt properties name value kept)
          (set_properties encrypt properties values) done in
      let here = set_property-left other name value kept next first (ground arith) in
      let there = set_properties-left other values next kept' rest (ground arith) in
      (there.0 ∙ here.0, there.1 ∙ here.1)

-- Saving settings never puts a secret among the plain settings of a plugin of the second API.
pub configure_v2-HidesSecrets :
    (encrypt : String → Value → Managed Value) (decrypt : Value → Value) (manifest : PluginManifest)
    (values : Value) (m m' : PluginManager)
    → configure_v2 encrypt decrypt manifest values m ≡ ok m'
    → HidesSecrets (properties_of (schema_of manifest)) (part_of "config" (record_of manifest.id m))
    → HidesSecrets
        (properties_of (schema_of manifest))
        (part_of "config" (record_of manifest.id m'))
unfolding configure_v2
configure_v2-HidesSecrets encrypt decrypt manifest (dict values) m m' done hidden =
    let (kept, looped, rest) = configure_v2-ok encrypt decrypt manifest values m m' done in
    let stored = (saved_as decrypt manifest kept m m' rest).1 in
    rw (stored, part_of-config kept (record_of manifest.id m))
      (set_properties-HidesSecrets encrypt (properties_of (schema_of manifest)) values
        (kept_of (record_of manifest.id m)) kept looped hidden)
configure_v2-HidesSecrets encrypt decrypt manifest v m m' done hidden = cc

-- Saving settings changes only what the form names: a setting that it does not name, and a secret that it sends
-- back masked or empty, stay as they are stored.
pub configure_v2-Keeps :
    (encrypt : String → Value → Managed Value) (decrypt : Value → Value) (manifest : PluginManifest)
    (values : Fields) (other : String) (m m' : PluginManager)
    → configure_v2 encrypt decrypt manifest (dict values) m ≡ ok m'
    → is_left (properties_of (schema_of manifest)) other values ≡ true
    → Keeps other (record_of manifest.id m) (record_of manifest.id m')
configure_v2-Keeps encrypt decrypt manifest values other m m' done left =
    let r = record_of manifest.id m in
    let (kept, looped, rest) = configure_v2-ok encrypt decrypt manifest values m m' done in
    let stored = (saved_as decrypt manifest kept m m' rest).1 in
    rw (stored, part_of-config kept r, part_of-secrets kept r)
      (set_properties-left encrypt (properties_of (schema_of manifest)) other values (kept_of r)
        kept looped left)
