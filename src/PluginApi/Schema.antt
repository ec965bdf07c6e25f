-- ===== src/PluginApi/Schema.antt =====
-- The supported subset of JSON Schema in backend/maintainer/plugin_api_v2.py: `validate_schema`,
-- `validate_config_schema` and `validate_value`. A schema is the JSON value that a plugin sends. A
-- walk over the properties of a schema is a walk over its fields up to the key "properties", since a
-- dict has each key once. Python's limit on recursion is not modelled.
use maintune.Base.{
  String, ◌<>◌, Bool, true, false, not, ◌&&◌, ◌||◌, Option, none, some, List, [], ◌∷◌, all, ltb,
  if◌then◌else◌, ◌==◌, contains, is_unique, string_eq, nat_eq,
}
use maintune.Base.Int.{ℤ, pos, ltb_ℤ}
use maintune.Base.Result.{Result, ok, err, ◌>>=◌, ◌>>◌, raise_if}
use maintune.Json.{
  Value, bool, int, float, str, list, dict, Items, nil, Fields, end, field, get, has_key, key_list,
  items, count_items, count_fields,
}

-- `PluginSchemaError` with its message, and the `TypeError` of a list or dict put into a set.
pub data SchemaError : Type 0 where
  plugin_schema_error : String → SchemaError
  type_error : SchemaError

abbrev pub Checked : Type 0
Checked = Result SchemaError (Unit {0})

abbrev pub fail_if : Bool → String → Checked
fail_if b message = raise_if b (plugin_schema_error message)

abbrev pub primitives : List String
primitives = "object" ∷ "array" ∷ "string" ∷ "number" ∷ "integer" ∷ "boolean" ∷ []

abbrev pub schema_keys : List String
schema_keys =
    "type" ∷ "properties" ∷ "required" ∷ "additionalProperties" ∷ "items" ∷ "enum" ∷ "minimum"
    ∷ "maximum" ∷ "minLength" ∷ "maxLength" ∷ "minItems" ∷ "maxItems" ∷ "default" ∷ "title"
    ∷ "description" ∷ "secret" ∷ []

abbrev pub is_hashable : Value → Bool
is_hashable (list xs) = false
is_hashable (dict fs) = false
is_hashable _ = true

-- `schema.get("type")`, if it is a supported type.
unfoldable pub kind_of : Option Value → Result SchemaError String
kind_of (some (str s)) =
    if contains primitives s
    then ok s
    else err (plugin_schema_error "Plugin schema requires a supported type")
kind_of (some (list xs)) = err type_error
kind_of (some (dict fs)) = err type_error
kind_of _ = err (plugin_schema_error "Plugin schema requires a supported type")

unfoldable pub check_enum : Option Value → Checked
check_enum none = ok tt
check_enum (some (list xs)) =
    fail_if (count_items xs == 0 || ltb 100 (count_items xs))
      "Schema enum must contain 1 to 100 values"
check_enum (some v) = fail_if true "Schema enum must contain 1 to 100 values"

abbrev pub texts_of : List Value → List String
texts_of [] = []
texts_of (str s ∷ vs) = s ∷ texts_of vs
texts_of (v ∷ vs) = texts_of vs

abbrev is_text : Value → Bool
is_text (str s) = true
is_text v = false

-- `len(set(required)) != len(required) or any(name not in properties for name in required)`
unfoldable pub check_required : List Value → Fields → Checked
check_required names properties =
    if not (all is_hashable names)
    then err type_error
    else fail_if
        (not (
          is_unique (texts_of names)
          && all is_text names
          && all (λ name. has_key name properties) (texts_of names)))
        "Object schema has an invalid required list"

abbrev pub fields_or_empty : Option Value → Option Fields
fields_or_empty none = some end
fields_or_empty (some (dict fs)) = some fs
fields_or_empty (some v) = none

abbrev pub items_or_empty : Option Value → Option Items
items_or_empty none = some nil
items_or_empty (some (list xs)) = some xs
items_or_empty (some v) = none

-- The checks of an object schema before its properties.
object_parts : Option Fields → Option Items → Option Value → Checked
object_parts (some properties) (some required) additional = do
  fail_if (ltb 100 (count_fields properties)) "Invalid object schema"
  check_required (items required) properties
  elim additional [
    | none ↦ ok tt
    | some v ↦ elim v [ bool b ↦ ok tt | _ ↦ fail_if true "additionalProperties must be boolean" ]
  ]
object_parts _ _ additional = fail_if true "Invalid object schema"

unfoldable pub check_object : Fields → Checked
unfolding object_parts check_required
check_object fs =
    object_parts (fields_or_empty (get "properties" fs)) (items_or_empty (get "required" fs))
      (get "additionalProperties" fs)

unfoldable pub check_array : Option Value → Checked
check_array (some (dict fs)) = ok tt
check_array _ = fail_if true "Array schema requires an items schema"

-- A Python bool is an int.
abbrev pub int_of : Value → Option ℤ
int_of (int z) = some z
int_of (bool true) = some (pos 1)
int_of (bool false) = some (pos 0)
int_of _ = none

check_bound : String → Option Value → Checked
check_bound key none = ok tt
check_bound key (some v) = elim (int_of v) [
  | none ↦ fail_if true ("Invalid " <> key)
  | some z ↦ fail_if (ltb_ℤ z (pos 0)) ("Invalid " <> key)
]

-- One round of the loop over the pairs of bounds.
unfoldable pub check_bounds : String → String → Fields → Checked
unfolding check_bound
check_bounds lower upper fs = do
  check_bound lower (get lower fs)
  check_bound upper (get upper fs)
  elim (get lower fs) [
    | none ↦ ok tt
    | some v ↦ elim (get upper fs) [
      | none ↦ ok tt
      | some w ↦ elim (int_of v) [
        | none ↦ ok tt
        | some a ↦ elim (int_of w) [
          | none ↦ ok tt
          | some b ↦ fail_if (ltb_ℤ b a) (lower <> " exceeds " <> upper)
        ]
      ]
    ]
  ]

unfoldable pub check_number : String → Option Value → Checked
check_number key none = ok tt
check_number key (some (int z)) = ok tt
check_number key (some (float z k)) = ok tt
check_number key (some v) = fail_if true ("Invalid " <> key)

-- The part of `validate_schema` above the recursive calls, and the part below them.
unfoldable pub check_kind : Bool → String → Fields → Checked
check_kind root_object kind fs = do
  fail_if (root_object && not (kind == "object")) "Tool input schema must be an object"
  check_enum (get "enum" fs)
  if kind == "object" then check_object fs else ok tt
  if kind == "array" then check_array (get "items" fs) else ok tt

unfoldable pub check_head : Bool → Fields → Result SchemaError String
check_head root_object fs = do
  fail_if (not (all (contains schema_keys) (key_list fs)))
      "Plugin schema is not in the supported JSON Schema subset"
  kind ← kind_of (get "type" fs)
  check_kind root_object kind fs
  ok kind

unfoldable pub check_tail : Fields → Checked
check_tail fs = do
  check_bounds "minLength" "maxLength" fs
  check_bounds "minItems" "maxItems" fs
  check_number "minimum" (get "minimum" fs)
  check_number "maximum" (get "maximum" fs)

unfoldable mutual
  pub validate_schema : Value → Bool → Checked
  validate_schema (dict fs) root_object = do
    kind ← check_head root_object fs
    nested_schemas kind fs
    check_tail fs
  validate_schema _ root_object =
      fail_if true "Plugin schema is not in the supported JSON Schema subset"

  -- The calls on the properties of an object and on the items of an array.
  pub nested_schemas : String → Fields → Checked
  nested_schemas kind end = ok tt
  nested_schemas kind (field key v fs) =
      let here = property_schemas v in
      let one = validate_schema v false in
      let later = nested_schemas kind fs in
      if kind == "object" && key == "properties"
      then here
      else if kind == "array" && key == "items"
      then one
      else later

  pub property_schemas : Value → Checked
  property_schemas (dict fs) = each_schema fs
  property_schemas _ = ok tt

  pub each_schema : Fields → Checked
  each_schema end = ok tt
  each_schema (field key v fs) = validate_schema v false >> each_schema fs
