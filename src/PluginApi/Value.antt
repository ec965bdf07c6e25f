-- ===== src/PluginApi/Value.antt =====
-- `validate_value` of backend/maintainer/plugin_api_v2.py: a value against a schema. The `path` text
-- of the messages is kept as a `Place`.
pub mod Schemas
pub mod Conforms
use maintune.Base.{
  ℕ, suc, ◌+◌, String, ◌<>◌, Bool, true, false, not, ◌&&◌, ◌||◌, Option, none, some, List, [], ◌∷◌,
  all, any, ltb, length, if◌then◌else◌, ◌==◌, string_eq, nat_eq,
}
use maintune.Base.Int.{ℤ, pos, ltb_ℤ}
use maintune.Base.Result.{Result, ok, err, ◌>>=◌, ◌>>◌, raise_if}
use maintune.Base.Text.{codes}
use maintune.Json.{
  Value, null, bool, int, float, str, list, dict, Items, nil, cons, Fields, end, field, get,
  has_key, key_list, items, count_items, Number, number_of, number_lt,
}
use maintune.Json.Equality.{eq_value}
use maintune.PluginApi.Schema.{
  SchemaError, Checked, int_of, fields_or_empty, items_or_empty, texts_of, validate_schema,
}

-- Where in a value an error lies: `path`, `path.name` or `path[index]`.
pub data Place : Type 0 where
  root : String → Place
  member : Place → String → Place
  item : Place → ℕ → Place

-- An error of the schema, or a `PluginSchemaError` about the value at a place.
pub data ValueError : Type 0 where
  bad_schema : SchemaError → ValueError
  bad_value : Place → String → ValueError

abbrev pub Valid : Type 0
Valid = Result ValueError (Unit {0})

abbrev pub valid_if : Bool → Place → String → Valid
valid_if b place message = raise_if (not b) (bad_value place message)

abbrev pub lift : Checked → Valid
lift (ok u) = ok u
lift (err e) = err (bad_schema e)

-- `schema["type"]` of a valid schema.
abbrev pub type_of : Fields → String
type_of fs = elim (get "type" fs) [ none ↦ "" | some v ↦ elim v [ str s ↦ s | _ ↦ "" ] ]

abbrev pub is_number : Value → Bool
is_number (int z) = true
is_number (float z k) = true
is_number _ = false

-- The table of Python types.
unfoldable pub has_kind : String → Value → Bool
has_kind kind v = elim v [
  | dict fs ↦ kind == "object"
  | list xs ↦ kind == "array"
  | str s ↦ kind == "string"
  | int z ↦ kind == "number" || kind == "integer"
  | float z k ↦ kind == "number"
  | bool b ↦ kind == "boolean"
  | null ↦ false
]

-- `"enum" in schema and value not in schema["enum"]`, negated
unfoldable pub in_enum : Option Value → Value → Bool
in_enum none v = true
in_enum (some (list xs)) v = any (eq_value v) (items xs)
in_enum (some w) v = true

abbrev pub int_or : ℤ → Option Value → ℤ
int_or d none = d
int_or d (some v) = elim (int_of v) [ none ↦ d | some z ↦ z ]

-- The two tests of a length, with the default of the upper bound.
unfoldable pub count_fits : String → String → ℕ → Fields → ℕ → Bool
count_fits lower upper default fs n = not (
    ltb_ℤ (pos n) (int_or (pos 0) (get lower fs))
    || ltb_ℤ (int_or (pos default) (get upper fs)) (pos n))

abbrev number? : Option Value → Option Number
number? none = none
number? (some v) = number_of v

not_below : Option Number → Option Number → Bool
not_below (some a) (some b) = not (number_lt a b)
not_below _ _ = true

-- The two tests of a range; a missing bound is an infinity.
unfoldable pub in_range : Fields → Value → Bool
unfolding not_below
in_range fs v =
    not_below (number_of v) (number? (get "minimum" fs))
    && not_below (number? (get "maximum" fs)) (number_of v)

unfoldable pub properties_of : Fields → Fields
properties_of fs = elim (fields_or_empty (get "properties" fs)) [ none ↦ end | some ps ↦ ps ]

unfoldable pub required_of : Fields → List String
required_of fs = elim (items_or_empty (get "required" fs)) [
  | none ↦ []
  | some xs ↦ texts_of (items xs)
]

-- `schema.get("additionalProperties") is False`
unfoldable pub is_closed : Fields → Bool
is_closed fs = elim (get "additionalProperties" fs) [
  | none ↦ false
  | some v ↦ elim v [ bool b ↦ not b | _ ↦ false ]
]

-- The loop over the required names.
unfoldable pub check_names : List String → Fields → Place → Valid
check_names [] vs place = ok tt
check_names (name ∷ names) vs place =
    valid_if (has_key name vs) (member place name) "is required" >> check_names names vs place

unfoldable pub check_members : Fields → Fields → Place → Valid
check_members fs vs place = do
  check_names (required_of fs) vs place
  valid_if (not (is_closed fs) || all (λ name. has_key name (properties_of fs)) (key_list vs)) place
      "contains an unknown property"

-- What is checked of the value itself, before its members and items.
unfoldable pub check_self : Fields → Value → Place → Valid
check_self fs v place = do
  valid_if (has_kind (type_of fs) v) place ("must be " <> type_of fs)
  valid_if (in_enum (get "enum" fs) v) place "is outside the allowed values"
  elim v [
    | dict vs ↦ check_members fs vs place
    | list xs ↦
        valid_if (count_fits "minItems" "maxItems" 10000 fs (count_items xs)) place
          "has an invalid item count"
    | str s ↦
        valid_if (count_fits "minLength" "maxLength" 1000000 fs (length (codes s))) place
          "has an invalid length"
    | int z ↦ valid_if (in_range fs (int z)) place "is outside the allowed range"
    | float z k ↦ valid_if (in_range fs (float z k)) place "is outside the allowed range"
    | bool b ↦ ok tt
    | null ↦ ok tt
  ]

abbrev pub schema_fields : Value → Fields
schema_fields (dict fs) = fs
schema_fields _ = end

-- `schema["items"]` of a valid array schema
abbrev pub item_schema : Fields → Value
item_schema fs = elim (get "items" fs) [ none ↦ null | some s ↦ s ]

unfoldable pub check_node : Value → Value → Place → Valid
check_node schema v place =
    lift (validate_schema schema false) >> check_self (schema_fields schema) v place

unfoldable mutual
  pub validate_value : Value → Value → Place → Valid
  validate_value schema (dict vs) place =
      check_node schema (dict vs) place
      >> each_member (properties_of (schema_fields schema)) vs place
  validate_value schema (list xs) place =
      check_node schema (list xs) place >> each_item (item_schema (schema_fields schema)) xs place 0
  validate_value schema v place = check_node schema v place

  pub each_member : Fields → Fields → Place → Valid
  each_member properties end place = ok tt
  each_member properties (field name v vs) place =
      let later = each_member properties vs place in
      elim (get name properties) [
        | none ↦ later
        | some s ↦ validate_value s v (member place name) >> later
      ]

  pub each_item : Value → Items → Place → ℕ → Valid
  each_item schema nil place index = ok tt
  each_item schema (cons v vs) place index =
      validate_value schema v (item place index) >> each_item schema vs place (index + 1)
