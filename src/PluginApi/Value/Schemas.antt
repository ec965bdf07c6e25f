-- ===== src/PluginApi/Value/Schemas.antt =====
-- What a valid schema says of the schemas inside it.
use maintune.Base.{
  ◌≡◌, refl, sym, ◌∙◌, String, Bool, true, false, ◌&&◌, not, Option, none, some, arith, all,
  contains, if◌then◌else◌, ◌==◌, string_eq,
}
use mathlib.Core.Path.{subst}
use maintune.Base.Result.{Result, ok, err, ◌>>=◌, ◌>>◌, >>=-eq-ok, >>-eq-ok}
use maintune.Json.{Value, str, dict, Fields, end, field, get, key_list}
use maintune.PluginApi.Schema.{
  SchemaError, Checked, schema_keys, kind_of, check_enum, check_array, check_kind, check_head,
  check_tail, validate_schema, nested_schemas, property_schemas, each_schema, fields_or_empty,
  fail_if,
}
use maintune.PluginApi.Value.{type_of, properties_of, item_schema}

kind_of-type : (o : Option Value) (kind : String) → kind_of o ≡ ok kind → o ≡ some (str kind)
unfolding kind_of
kind_of-type none kind h = cc
kind_of-type (some (str s)) kind h = ground arith
kind_of-type (some v) kind h = cc

head_shape :
    {A : Type 0} (first : Checked) (found : Result SchemaError A) (check : A → Checked) (a : A)
    → (first >> (found >>= λ x. check x >> ok x)) ≡ ok a
    → (found ≡ ok a) × (check a ≡ ok tt)
head_shape (err e) found check a h = cc
head_shape (ok u) (err e) check a h = cc
head_shape (ok u) (ok x) check a h = let both = >>-eq-ok (check x) (ok x) h in ground (arith, both)

-- A successful head found the type of the schema, and checked what that type asks for.
pub check_head-type :
    (b : Bool) (fs : Fields) (kind : String)
    → check_head b fs ≡ ok kind
    → (get "type" fs ≡ some (str kind)) × (check_kind b kind fs ≡ ok tt)
unfolding check_head
check_head-type b fs kind h =
    let (found, checked) =
      head_shape (fail_if (not (all (contains schema_keys) (key_list fs))) _)
        (kind_of (get "type" fs)) (λ k. check_kind b k fs) kind h in
    (kind_of-type (get "type" fs) kind found, checked)

module _ (key : String) (v : Value) (fs : Fields) where
  each_schema-field : each_schema (field key v fs) ≡ (validate_schema v false >> each_schema fs)
  unfolding validate_schema
  each_schema-field = refl

  nested_schemas-object :
      nested_schemas "object" (field key v fs)
      ≡ (if key == "properties" then property_schemas v else nested_schemas "object" fs)
  unfolding validate_schema string_eq
  nested_schemas-object = refl

  nested_schemas-array :
      nested_schemas "array" (field key v fs)
      ≡ (if key == "items" then validate_schema v false else nested_schemas "array" fs)
  unfolding validate_schema string_eq
  nested_schemas-array = refl

property_schemas-dict : (ps : Fields) → property_schemas (dict ps) ≡ each_schema ps
unfolding validate_schema
property_schemas-dict ps = refl

each_schema-get :
    (ps : Fields) (name : String) (s : Value)
    → each_schema ps ≡ ok tt
    → get name ps ≡ some s
    → validate_schema s false ≡ ok tt
each_schema-get end name s h g = cc
each_schema-get (field key v ps) name s h g =
    let both = >>-eq-ok (validate_schema v false) (each_schema ps) (rw each_schema-field at h) in
    ground (arith, both, each_schema-get ps name s)

nested_schemas-properties :
    (fs ps : Fields)
    → nested_schemas "object" fs ≡ ok tt
    → get "properties" fs ≡ some (dict ps)
    → each_schema ps ≡ ok tt
nested_schemas-properties end ps h g = cc
nested_schemas-properties (field key v fs) ps h g = ground (
  arith,
  nested_schemas-object key v fs,
  property_schemas-dict ps,
  nested_schemas-properties fs ps,
)

nested_schemas-items :
    (fs : Fields) (s : Value)
    → nested_schemas "array" fs ≡ ok tt
    → get "items" fs ≡ some s
    → validate_schema s false ≡ ok tt
nested_schemas-items end s h g = cc
nested_schemas-items (field key v fs) s h g =
    ground (arith, nested_schemas-array key v fs, nested_schemas-items fs s)

validate_schema-dict :
    (fs : Fields) (b : Bool)
    → validate_schema (dict fs) b
      ≡ (check_head b fs >>= λ kind. nested_schemas kind fs >> check_tail fs)
unfolding validate_schema
validate_schema-dict fs b = refl

-- A valid schema has a type, and its nested schemas are valid.
validate_schema-parts :
    (fs : Fields) (b : Bool)
    → validate_schema (dict fs) b ≡ ok tt
    → (kind : String) × (get "type" fs ≡ some (str kind))
      × (check_kind b kind fs ≡ ok tt)
      × (nested_schemas kind fs ≡ ok tt)
validate_schema-parts fs b h =
    let found = >>=-eq-ok (check_head b fs) _ (rw validate_schema-dict at h) in
    let (type, checked) = check_head-type b fs found.0 found.1 in
    (found.0, type, checked, (>>-eq-ok (nested_schemas found.0 fs) (check_tail fs) found.2).0)

type_of-eq : (fs : Fields) (k : String) → get "type" fs ≡ some (str k) → type_of fs ≡ k
type_of-eq fs k h = ground arith

item_schema-eq : (fs : Fields) (s : Value) → get "items" fs ≡ some s → item_schema fs ≡ s
item_schema-eq fs s h = ground arith

property_of :
    (o : Option Value) (name : String) (s : Value)
    → ((ps : Fields) → o ≡ some (dict ps) → each_schema ps ≡ ok tt)
    → get name (elim (fields_or_empty o) [ none ↦ end | some ps ↦ ps ]) ≡ some s
    → validate_schema s false ≡ ok tt
property_of none name s valid g = cc
property_of (some (dict ps)) name s valid g = each_schema-get ps name s (valid ps refl) g
property_of (some v) name s valid g = cc

check_array-items :
    (o : Option Value) → check_array o ≡ ok tt → (gs : Fields) × (o ≡ some (dict gs))
unfolding check_array
check_array-items (some (dict gs)) h = (gs, refl)
check_array-items none h = cc
check_array-items (some v) h = cc

check_kind-array :
    (b : Bool) (fs : Fields)
    → check_kind b "array" fs ≡ ok tt
    → check_array (get "items" fs) ≡ ok tt
unfolding check_kind string_eq
check_kind-array b fs h =
    (>>-eq-ok (ok tt) (check_array (get "items" fs))
      (>>-eq-ok (check_enum (get "enum" fs)) _ (>>-eq-ok (fail_if (b && true) _) _ h).1).1).1

-- The properties of a valid object schema are valid schemas.
pub validate_schema-property :
    (fs : Fields) (b : Bool) (name : String) (s : Value)
    → validate_schema (dict fs) b ≡ ok tt
    → type_of fs ≡ "object"
    → get name (properties_of fs) ≡ some s
    → validate_schema s false ≡ ok tt
unfolding properties_of
validate_schema-property fs b name s h kind g =
    let (k, type, checked, nested) = validate_schema-parts fs b h in
    property_of (get "properties" fs) name s
      (λ ps e.
        nested_schemas-properties fs ps
          (subst (λ x. nested_schemas x fs ≡ ok tt) (sym (type_of-eq fs k type) ∙ kind) nested) e)
      g

-- The items of a valid array schema have a valid schema.
pub validate_schema-items :
    (fs : Fields) (b : Bool)
    → validate_schema (dict fs) b ≡ ok tt
    → type_of fs ≡ "array"
    → validate_schema (item_schema fs) false ≡ ok tt
validate_schema-items fs b h kind =
    let (k, type, checked, nested) = validate_schema-parts fs b h in
    let is_array : k ≡ "array" = sym (type_of-eq fs k type) ∙ kind in
    let (gs, found) =
      check_array-items (get "items" fs)
        (check_kind-array b fs (subst (λ x. check_kind b x fs ≡ ok tt) is_array checked)) in
    rw (item_schema-eq fs (dict gs) found) (
      nested_schemas-items fs (dict gs) (subst (λ x. nested_schemas x fs ≡ ok tt) is_array nested)
        found)
