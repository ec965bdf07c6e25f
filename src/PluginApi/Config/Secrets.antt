-- ===== src/PluginApi/Config/Secrets.antt =====
-- Where an accepted config schema may have secrets.
use mathlib.Core.Path.{subst}
use native.Mathlib.Numerals.{add-one}
use maintune.Base.{
  ℕ, suc, ◌+◌, ◌≡◌, refl, sym, ap, ◌∙◌, String, true, none, some, arith, if◌then◌else◌, ◌==◌,
  string_eq, nat_eq,
}
use maintune.Base.Result.{ok, ◌>>◌, >>-eq-ok}
use maintune.Json.{Value, dict, Fields, end, field, get, truthy?}
use maintune.PluginApi.Schema.{validate_schema}
use maintune.PluginApi.Value.{type_of}
use maintune.PluginApi.Config.{
  check_secret, check_node, below_node, check_properties, each_node, validate_config_schema,
}

-- The schemas inside a schema, with their depth: the properties of objects and the items of arrays.
pub data NodeAt (schema : Value) : ℕ → Value → Type 0 where
  top : NodeAt schema 0 schema
  property :
      {d : ℕ} {node child : Value} (fs ps : Fields) (name : String)
      → NodeAt schema d node
      → node ≡ dict fs
      → type_of fs ≡ "object"
      → get "properties" fs ≡ some (dict ps)
      → get name ps ≡ some child
      → NodeAt schema (suc d) child
  item :
      {d : ℕ} {node child : Value} (fs : Fields)
      → NodeAt schema d node
      → node ≡ dict fs
      → type_of fs ≡ "array"
      → get "items" fs ≡ some child
      → NodeAt schema (suc d) child

module _ (key : String) (v : Value) (fs : Fields) (d : ℕ) where
  each_node-field : each_node (field key v fs) d ≡ (check_node v (d + 1) >> each_node fs d)
  unfolding check_node
  each_node-field = refl

  below_node-object :
      below_node "object" (field key v fs) d
      ≡ (if key == "properties" then check_properties v d else below_node "object" fs d)
  unfolding check_node string_eq
  below_node-object = refl

  below_node-array :
      below_node "array" (field key v fs) d
      ≡ (if key == "items" then check_node v (d + 1) else below_node "array" fs d)
  unfolding check_node string_eq
  below_node-array = refl

check_properties-dict : (ps : Fields) (d : ℕ) → check_properties (dict ps) d ≡ each_node ps d
unfolding check_node
check_properties-dict ps d = refl

check_node-dict :
    (fs : Fields) (d : ℕ)
    → check_node (dict fs) d ≡ (check_secret fs d >> below_node (type_of fs) fs d)
unfolding check_node
check_node-dict fs d = refl

each_node-get :
    (ps : Fields) (d : ℕ) (name : String) (s : Value)
    → each_node ps d ≡ ok tt
    → get name ps ≡ some s
    → check_node s (d + 1) ≡ ok tt
each_node-get end d name s h g = cc
each_node-get (field key v ps) d name s h g =
    let both = >>-eq-ok (check_node v (d + 1)) (each_node ps d) (rw each_node-field at h) in
    ground (arith, both, each_node-get ps d name s)

below_node-properties :
    (fs ps : Fields) (d : ℕ)
    → below_node "object" fs d ≡ ok tt
    → get "properties" fs ≡ some (dict ps)
    → each_node ps d ≡ ok tt
below_node-properties end ps d h g = cc
below_node-properties (field key v fs) ps d h g =
    ground (
      arith,
      below_node-object key v fs d,
      check_properties-dict ps d,
      below_node-properties fs ps d,
    )

below_node-items :
    (fs : Fields) (s : Value) (d : ℕ)
    → below_node "array" fs d ≡ ok tt
    → get "items" fs ≡ some s
    → check_node s (d + 1) ≡ ok tt
below_node-items end s d h g = cc
below_node-items (field key v fs) s d h g =
    ground (arith, below_node-array key v fs d, below_node-items fs s d)

parts :
    (fs : Fields) (node : Value) (d : ℕ) (kind : String)
    → node ≡ dict fs
    → type_of fs ≡ kind
    → check_node node d ≡ ok tt
    → (check_secret fs d ≡ ok tt) × (below_node kind fs d ≡ ok tt)
parts fs node d kind e k h =
    let both =
      >>-eq-ok (check_secret fs d) (below_node (type_of fs) fs d)
        (sym (check_node-dict fs d) ∙ (ap (λ n. check_node n d) (sym e) ∙ h)) in
    (both.0, subst (λ x. below_node x fs d ≡ ok tt) k both.1)

-- The check reaches every node.
check_node-NodeAt :
    {schema node : Value} {d : ℕ}
    → NodeAt schema d node
    → check_node schema 0 ≡ ok tt
    → check_node node d ≡ ok tt
check_node-NodeAt top h = h
check_node-NodeAt (property {d = d} {node = node} {child = child} fs ps name at e k p g) h =
    rw add-one at (
      each_node-get ps d name child
        (below_node-properties fs ps d (parts fs node d "object" e k (check_node-NodeAt at h)).1 p)
        g)
check_node-NodeAt (item {d = d} {node = node} {child = child} fs at e k g) h =
    rw add-one at
      (below_node-items fs child d (parts fs node d "array" e k (check_node-NodeAt at h)).1 g)

-- In an accepted config schema a node at any depth that is marked secret is a direct property of
-- the root, of type string, with neither a default nor an enum.
pub secrets_at_top :
    (schema : Value) (d : ℕ) (fs : Fields)
    → validate_config_schema schema ≡ ok tt
    → NodeAt schema d (dict fs)
    → truthy? (get "secret" fs) ≡ true
    → (d ≡ 1) × (type_of fs ≡ "string") × (get "default" fs ≡ none) × (get "enum" fs ≡ none)
unfolding validate_config_schema check_secret
secrets_at_top schema d fs h at secret =
    let accepted = (>>-eq-ok (validate_schema schema true) (check_node schema 0) h).1 in
    let node = (parts fs (dict fs) d (type_of fs) refl refl (check_node-NodeAt at accepted)).0 in
    ground (arith, node)
