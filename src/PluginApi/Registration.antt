-- ===== src/PluginApi/Registration.antt =====
-- What `PluginRegistry.register_plugin` of backend/maintainer/plugin_api_v2.py asks of one
-- registration, kind by kind. The names of the hook catalog are the parameter `hooks`.
use maintune.Base.{
  ℕ, String, Bool, true, false, not, ◌&&◌, ◌||◌, Option, none, some, List, [], ◌∷◌, all, leb,
  length, if◌then◌else◌, ◌==◌, contains, is_unique, string_eq, nat_eq,
}
use maintune.Base.Int.{pos, negsuc, leb_ℤ}
use maintune.Base.Result.{Result, ok, err, ◌>>=◌, ◌>>◌, raise_if}
use maintune.Base.Text.{Text, codes}
use maintune.Base.Unicode.{Unicode, strip, is_digit}
use maintune.Base.Regex.{Re, empty, ranges, seq, alt, plus, literal, fullmatch}
use maintune.Json.{Value, null, str, list, dict, Fields, end, get, without, items, count_items}
use maintune.PluginApi.Schema.{SchemaError, Checked, int_of, validate_schema}

pub record ExtensionRegistration : Type 0 where
  pub plugin_id : String
  pub kind : String
  pub name : String
  pub identifier : String
  pub load_order : ℕ
  pub metadata : Fields

-- `PluginRegistrationError`, `PluginSchemaError` and the `TypeError` of an unhashable value in a set.
pub data RegistrationError : Type 0 where
  plugin_registration_error : String → RegistrationError
  schema_error : SchemaError → RegistrationError
  type_error : RegistrationError

abbrev pub Registering : Type 0 → Type 0
Registering A = Result RegistrationError A

abbrev pub reject_if : Bool → String → Registering (Unit {0})
reject_if b message = raise_if b (plugin_registration_error message)

abbrev pub schema_ok : Checked → Registering (Unit {0})
schema_ok (ok u) = ok u
schema_ok (err e) = err (schema_error e)

-- `metadata.get(key)` as an argument that may be `None`.
abbrev pub or_null : Option Value → Value
or_null none = null
or_null (some v) = v

abbrev pub is_text : Value → Bool
is_text (str s) = true
is_text v = false

-- `v in {...}` for a set of texts.
abbrev pub in_set : Value → List String → Registering Bool
in_set (str s) set = ok (contains set s)
in_set (list xs) set = err type_error
in_set (dict fs) set = err type_error
in_set v set = ok false

abbrev extension_kinds : List String
extension_kinds = "hook" ∷ "tool" ∷ "service" ∷ "provider" ∷ "route" ∷ []

abbrev is_name_char : ℕ → Bool
is_name_char c = leb 97 c && leb c 122 || is_digit c || contains (codes "_.-") c

-- `[0-9]+\.[0-9]+\.[0-9]+(?:[-+][0-9A-Za-z.-]+)?`
unfoldable pub semver : Re
semver =
    let digits = plus (ranges ((48, 57) ∷ [])) in
    let tail =
      seq (alt (literal "-") (literal "+"))
        (plus (ranges ((48, 57) ∷ (65, 90) ∷ (97, 122) ∷ (46, 46) ∷ (45, 45) ∷ []))) in
    seq digits (seq (literal ".") (seq digits (seq (literal ".") (seq digits (alt tail empty)))))

-- `isinstance(priority, int) and -1000 <= priority <= 1000`
abbrev priority_ok : Option Value → Bool
priority_ok none = true
priority_ok (some v) = elim (int_of v) [
  | none ↦ false
  | some z ↦ leb_ℤ (negsuc 999) z && leb_ℤ z (pos 1000)
]

abbrev texts_of_length : ℕ → ℕ → List Value → List String → Option (List String)
texts_of_length lo hi [] seen = some seen
texts_of_length lo hi (str s ∷ vs) seen =
    let n = length (codes s) in
    let rest = texts_of_length lo hi vs (s ∷ seen) in if leb lo n && leb n hi then rest else none
texts_of_length lo hi (v ∷ vs) seen = none

abbrev model_ids_ok : Value → Bool
model_ids_ok (list xs) =
    leb 1 (count_items xs)
    && leb (count_items xs) 100
    && elim (texts_of_length 1 200 (items xs) []) [ none ↦ false | some ids ↦ is_unique ids ]
model_ids_ok v = false

check_methods : List Value → Registering (Unit {0})
check_methods [] = ok tt
check_methods (m ∷ ms) = do
  known ← in_set m ("GET" ∷ "POST" ∷ "PUT" ∷ "PATCH" ∷ "DELETE" ∷ [])
  reject_if (not known) "Invalid plugin HTTP methods"
  check_methods ms

abbrev pub text_of : Value → String
text_of (str s) = s
text_of v = ""

module _ (u : Unicode) (hooks : List String) where
  -- A text that is not blank and has at most 1000 characters.
  abbrev description_ok : Option Value → Bool
  description_ok (some (str s)) =
      not (length (strip u (codes s)) == 0) && leb (length (codes s)) 1000
  description_ok v = false

  abbrev recommended_ok : Option Value → Bool
  recommended_ok none = true
  recommended_ok (some (list xs)) = leb (count_items xs) 64 && all is_text (items xs)
  recommended_ok (some v) = false

  abbrev version_ok : Option Value → Bool
  version_ok none = true
  version_ok (some null) = true
  version_ok (some (str s)) = fullmatch u (λ a b. a == b) semver (codes s)
  version_ok (some v) = false

  abbrev optional_schema : Option Value → Registering (Unit {0})
  optional_schema none = ok tt
  optional_schema (some null) = ok tt
  optional_schema (some v) = schema_ok (validate_schema v false)

  check_hook : String → Fields → Registering (Unit {0})
  check_hook name metadata = do
    reject_if (not (contains hooks name)) "Hook is not in the public Hook catalog"
    reject_if (not (priority_ok (get "priority" metadata))) "Invalid Hook priority"

  unfoldable pub check_tool : Fields → Registering (Unit {0})
  check_tool metadata = do
    schema_ok (validate_schema (or_null (get "input_schema" metadata)) true)
    reject_if (not (description_ok (get "description" metadata))) "Tool description is required"
    reject_if (not (recommended_ok (get "recommended_agents" metadata)))
        "Invalid recommended_agents"

  unfoldable pub check_service : Fields → Registering (Unit {0})
  check_service metadata = do
    reject_if (not (version_ok (get "version" metadata)))
        "Service version must be semantic versioning"
    optional_schema (get "input_schema" metadata)
    optional_schema (get "output_schema" metadata)

  check_provider : Fields → Registering (Unit {0})
  check_provider metadata = do
    known ← in_set (or_null (get "provider_kind" metadata)) ("model" ∷ "sandbox" ∷ [])
    reject_if (not known) "Unsupported provider kind"
    schema_ok (validate_schema (or_null (get "config_schema" metadata)) true)
    model ← in_set (or_null (get "provider_kind" metadata)) ("model" ∷ [])
    reject_if (model && not (model_ids_ok (or_null (get "models" metadata))))
        "Model provider requires 1 to 100 unique model IDs"

  check_route : Fields → Registering (Unit {0})
  check_route metadata = do
    elim (get "methods" metadata) [
      | none ↦ reject_if true "Invalid plugin HTTP methods"
      | some v ↦ elim v [
        | list xs ↦
            reject_if (count_items xs == 0) "Invalid plugin HTTP methods"
            >> check_methods (items xs)
        | _ ↦ reject_if true "Invalid plugin HTTP methods"
      ]
    ]
    known ← in_set (or_null (get "access" metadata)) ("authenticated" ∷ "external" ∷ [])
    reject_if (not known) "Invalid plugin route access"

  -- The `if kind == ...` chain.
  unfoldable pub check_metadata : String → String → Fields → Registering (Unit {0})
  unfolding check_hook check_provider check_route check_methods
  check_metadata kind name metadata =
      if kind == "hook"
      then check_hook name metadata
      else if kind == "tool"
      then check_tool metadata
      else if kind == "service"
      then check_service metadata
      else if kind == "provider"
      then check_provider metadata
      else check_route metadata

  abbrev name_ok : Text → Bool
  name_ok [] = false
  name_ok (c ∷ s) = leb (length (c ∷ s)) 64 && u.is_lower c && all is_name_char (c ∷ s)

  -- One round of the loop over the values, but for the test for duplicates: kind, name, metadata.
  unfoldable pub parse_registration : Value → Registering (String × String × Fields)
  parse_registration (dict fs) = do
    known ← in_set (or_null (get "kind" fs)) extension_kinds
    let kind = text_of (or_null (get "kind" fs))
    let name = text_of (or_null (get "name" fs))
    reject_if (not (known && is_text (or_null (get "name" fs)))) "Unsupported plugin registration"
    reject_if (not (name_ok (codes name))) "Invalid extension name"
    ok (kind, name, without ("kind" ∷ "name" ∷ []) fs)
  parse_registration v = reject_if true "Plugin registration must be an object" >> ok ("", "", end)
