-- ===== src/Packages.antt =====
-- The manifest of a plugin and the members of its archive, of backend/maintainer/plugin_system.py, with
-- `safe_path` of backend/maintainer/sandboxes.py. A path is a text of code points.
pub mod Archive
pub mod Yaml
pub mod Tests
use maintune.Base.{
  ℕ, ◌/◌, ◌%◌, String, Bool, true, false, not, ◌&&◌, ◌||◌, Option, none, some, List, [], ◌∷◌, any,
  map, all, leb, length, contains, is_unique, if◌then◌else◌, ◌==◌, string_eq, nat_eq,
}
use maintune.Base.Result.{Result, ok, err, ◌>>◌, raise_if}
use maintune.Base.Text.{Text, codes, starts_with, split, join, replace_char}
use maintune.Base.Unicode.{Unicode, casefold}
use maintune.Json.{Value, null, str, int, Fields, has_key, get, put}
use maintune.Base.Int.{pos}
use maintune.PluginApi.Config.{validate_config_schema}

abbrev Valid : Type 0
Valid = Result String (Unit {0})

pub data FieldType : Type 0 where
  string boolean integer select string_list secret : FieldType

pub record PluginConfigField : Type 0 where
  pub type : FieldType
  pub required : Bool
  pub default : Value
  pub options : List String

abbrev is_empty_default : Value → Bool
is_empty_default null = true
is_empty_default (str s) = s == ""
is_empty_default v = false

-- `PluginConfigField.validate_shape`
unfoldable pub validate_shape : PluginConfigField → Valid
validate_shape f = elim f.type [
  | select ↦ elim f.options [ [] ↦ err "select fields require options" | o ∷ os ↦ ok tt ]
  | secret ↦ raise_if (not (is_empty_default f.default)) "secret defaults are forbidden"
  | _ ↦ ok tt
]

pub record PluginRuntimeSpec : Type 0 where
  pub default : String
  pub supported : List String

-- `PluginRuntimeSpec.validate_modes`
unfoldable pub validate_modes : PluginRuntimeSpec → Valid
validate_modes r =
    raise_if (not (is_unique r.supported) || not (contains r.supported r.default))
      "runtime default must be included in unique supported modes"

abbrev pub eq_text : Text → Text → Bool
eq_text [] [] = true
eq_text (c ∷ s) (d ∷ t) = c == d && eq_text s t
eq_text s t = false

abbrev pub has_char : ℕ → Text → Bool
has_char c s = any (λ d. c == d) s

abbrev pub is_empty : Text → Bool
is_empty [] = true
is_empty (c ∷ s) = false

-- The parts of a `PurePosixPath`: empty parts and single dots are dropped.
abbrev pub parts_of : List Text → List Text
parts_of [] = []
parts_of (p ∷ ps) =
    let rest = parts_of ps in if is_empty p || eq_text p (codes ".") then rest else p ∷ rest

abbrev pub path_parts : Text → List Text
path_parts s = parts_of (split 47 s)

abbrev pub is_absolute : Text → Bool
is_absolute s = starts_with s (codes "/")

abbrev pub has_parent : List Text → Bool
has_parent ps = any (λ p. eq_text p (codes "..")) ps

-- `PluginUISpec.valid_ui_path`
unfoldable pub valid_relative_path : Text → Valid
valid_relative_path value =
    raise_if (is_absolute value || has_char 92 value || has_parent (path_parts value))
      "path must stay inside the plugin package"

-- `PluginPythonSpec.valid_dependency_path`
unfoldable pub valid_dependency_path : Option Text → Valid
valid_dependency_path none = ok tt
valid_dependency_path (some value) =
    raise_if (is_absolute value || has_char 92 value || has_parent (path_parts value))
      "Python dependency path must stay inside the plugin package"

pub record PluginDependency : Type 0 where
  pub id : String
  pub version : String
  pub is_required : Bool

abbrev dependency_ids : List PluginDependency → List String
dependency_ids [] = []
dependency_ids (d ∷ ds) = d.id ∷ dependency_ids ds

-- `PluginManifest`, less the fields that no check below reads. The dependency file of `python`, the
-- entrypoints of `ui` and of `entrypoint` are given by their texts.
pub record PluginManifest : Type 0 where
  pub id : String
  pub name : String
  pub version : String
  pub plugin_api : ℕ
  pub api_version : Option ℕ
  pub entrypoint : Text
  pub capabilities : List String
  pub config : List (String × PluginConfigField)
  pub runtime : PluginRuntimeSpec
  pub python_dependencies : Option Text
  pub dependencies : List PluginDependency
  pub config_schema : Option Value
  pub ui : Option Text

-- `PluginManifest.accept_legacy_api_version`, of a value that is a dict.
unfoldable pub accept_legacy_api_version : Fields → Fields
accept_legacy_api_version value =
    if has_key "plugin_api" value
    then value
    else put "plugin_api" (elim (get "api_version" value) [ none ↦ int (pos 1) | some v ↦ v ]) value

unfoldable pub is_legacy : PluginManifest → Bool
is_legacy m = m.plugin_api == 1

abbrev is_id_start : ℕ → Bool
is_id_start c = (leb 97 c && leb c 122) || (leb 48 c && leb c 57)

abbrev is_id_char : ℕ → Bool
is_id_char c = is_id_start c || c == 46 || c == 45

-- `PLUGIN_ID.fullmatch(value)`
abbrev is_plugin_id : Text → Bool
is_plugin_id [] = false
is_plugin_id (c ∷ s) = is_id_start c && all is_id_char s && leb 2 (length s) && leb (length s) 127

-- `PluginManifest.valid_id`
unfoldable pub valid_id : Text → Valid
valid_id value = raise_if (not (is_plugin_id value)) "invalid plugin id"

abbrev disagrees : Option ℕ → ℕ → Bool
disagrees none n = false
disagrees (some m) n = not (m == n)

abbrev some_left : List String → Bool
some_left [] = false
some_left (s ∷ ss) = true

abbrev checked_config : Option Value → Valid
checked_config none = ok tt
checked_config (some schema) = elim (validate_config_schema schema) [
  | err e ↦ err "Plugin schema is invalid"
  | ok u ↦ ok tt
]

-- `PluginManifest.validate_api_shape`
unfoldable pub validate_api_shape : PluginManifest → Valid
validate_api_shape m = do
  raise_if (disagrees m.api_version m.plugin_api) "api_version and plugin_api disagree"
  raise_if (m.plugin_api == 1 && disagrees m.api_version 1) "Legacy API version must be 1"
  raise_if (not (m.plugin_api == 1) && some_left m.capabilities)
      "Plugin API v2 registers extensions at runtime; manifest capabilities are not supported"
  raise_if (not (is_unique (dependency_ids m.dependencies))) "duplicate Maintune plugin dependency"
  checked_config m.config_schema

-- `PluginManifest.unique_capabilities`
unfoldable pub unique_capabilities : List String → Valid
unique_capabilities values = raise_if (not (is_unique values)) "duplicate capability"

abbrev reserved_names : List Text
reserved_names = map codes (
    "con" ∷ "prn" ∷ "aux" ∷ "nul" ∷ "com1" ∷ "com2" ∷ "com3" ∷ "com4" ∷ "com5" ∷ "com6" ∷ "com7"
    ∷ "com8" ∷ "com9" ∷ "lpt1" ∷ "lpt2" ∷ "lpt3" ∷ "lpt4" ∷ "lpt5" ∷ "lpt6" ∷ "lpt7" ∷ "lpt8"
    ∷ "lpt9" ∷ [])

-- `part.endswith((" ", "."))`
abbrev ends_badly : Text → Bool
ends_badly [] = false
ends_badly (c ∷ []) = c == 32 || c == 46
ends_badly (c ∷ d ∷ s) = ends_badly (d ∷ s)

-- `part.split(".", 1)[0]`
abbrev stem : Text → Text
stem [] = []
stem (c ∷ s) = let rest = stem s in if c == 46 then [] else c ∷ rest

abbrev pub bad_part : Unicode → Text → Bool
bad_part u part =
    has_char 58 part || ends_badly part || any (eq_text (casefold u (stem part))) reserved_names

pub record ZipInfo : Type 0 where
  pub filename : Text
  pub external_attr : ℕ
  pub file_size : ℕ

-- `stat.S_ISLNK(info.external_attr >> 16)`
abbrev pub is_link : ℕ → Bool
is_link attr = (attr / 65536) / 4096 % 16 == 10

-- `_safe_member`: the parts of the path.
unfoldable pub safe_member : Unicode → ZipInfo → Result String (List Text)
safe_member u info = do
  let name = info.filename
  raise_if (has_char 92 name || has_char 0 name) "Archive contains an unsafe path"
  let parts = path_parts name
  raise_if (is_absolute name || (elim parts [ [] ↦ true | p ∷ ps ↦ false ]) || has_parent parts)
      "Archive contains an unsafe path"
  raise_if (any (bad_part u) parts) "Archive contains an unsafe path"
  raise_if (is_link info.external_attr) "Archive symlinks are forbidden"
  ok parts

-- `safe_path` of the sandbox client.
unfoldable pub safe_path : Text → Result String Text
safe_path path =
    let parts = split 47 (replace_char 92 47 path) in
    if is_empty path
      || starts_with path (codes "/")
      || has_char 92 (elim path [ [] ↦ [] | c ∷ s ↦ c ∷ [] ])
      || has_char 0 path
      || has_char 58 path
      || has_parent parts
    then err "Unsafe path"
    else ok (join 47 parts)
