-- ===== src/PluginApi/Value/Conforms/Correct.antt =====
-- `validate_value` against `Conforms`.
use mathlib.Core.Path.{subst}
use maintune.Base.{
  ℕ, ◌+◌, ◌≡◌, ◌↔◌, refl, String, true, false, Option, none, some, arith, string_eq,
}
use maintune.Base.Result.{ok, ◌>>◌, >>-eq-ok}
use maintune.Json.{
  Value, null, bool, int, float, str, list, dict, Items, nil, cons, Fields, end, field, get,
}
use maintune.PluginApi.Schema.{validate_schema}
use maintune.PluginApi.Value.{
  Place, member, item, Valid, type_of, has_kind, properties_of, check_node, schema_fields,
  item_schema, validate_value, each_member, each_item,
}
use maintune.PluginApi.Value.Schemas.{validate_schema-property, validate_schema-items}
use maintune.PluginApi.Value.Conforms.{
  SelfFits, Conforms, MembersConform, ItemsConform, check_self_iff,
}

check_node_iff :
    (s v : Value) (p : Place)
    → (check_node s v p ≡ ok tt)
      ↔ ((validate_schema s false ≡ ok tt) × SelfFits (schema_fields s) v)
unfolding check_node
check_node_iff s v p = ground (arith, check_self_iff (schema_fields s) v p)

member_step :
    (o : Option Value) (later : Valid) (f : Value → Valid)
    → (elim o [ none ↦ later | some s ↦ f s >> later ]) ≡ ok tt
    → (later ≡ ok tt) × ((s : Value) → o ≡ some s → f s ≡ ok tt)
member_step none later f h = (h, λ s e. cc)
member_step (some s) later f h =
    let both = >>-eq-ok (f s) later h in (both.1, λ t e. subst (λ x. f x ≡ ok tt) (cc) both.0)

member_join :
    (o : Option Value) (later : Valid) (f : Value → Valid)
    → later ≡ ok tt
    → ((s : Value) → o ≡ some s → f s ≡ ok tt)
    → (elim o [ none ↦ later | some s ↦ f s >> later ]) ≡ ok tt
member_join none later f h each = h
member_join (some s) later f h each = rw (each s refl, h)

mutual
  unfolding validate_value Conforms

  Conforms-validate_value :
      (v s : Value) (p : Place) → validate_value s v p ≡ ok tt → Conforms (schema_fields s) v
  Conforms-validate_value (dict vs) s p h =
      let both =
        >>-eq-ok (check_node s (dict vs) p) (each_member (properties_of (schema_fields s)) vs p)
          h in
      (
        ((check_node_iff s (dict vs) p).0 both.0).1,
        members_of_valid vs (properties_of (schema_fields s)) p both.1,
      )
  Conforms-validate_value (list xs) s p h =
      let both =
        >>-eq-ok (check_node s (list xs) p) (each_item (item_schema (schema_fields s)) xs p 0) h in
      (
        ((check_node_iff s (list xs) p).0 both.0).1,
        items_of_valid xs (item_schema (schema_fields s)) p 0 both.1,
      )
  Conforms-validate_value null s p h = ((check_node_iff s null p).0 h).1
  Conforms-validate_value (bool b) s p h = ((check_node_iff s (bool b) p).0 h).1
  Conforms-validate_value (int z) s p h = ((check_node_iff s (int z) p).0 h).1
  Conforms-validate_value (float z k) s p h = ((check_node_iff s (float z k) p).0 h).1
  Conforms-validate_value (str t) s p h = ((check_node_iff s (str t) p).0 h).1

  members_of_valid :
      (vs properties : Fields) (p : Place)
      → each_member properties vs p ≡ ok tt
      → MembersConform properties vs
  members_of_valid end properties p h = tt
  members_of_valid (field name v vs) properties p h =
      let both =
        member_step (get name properties) (each_member properties vs p)
          (λ s. validate_value s v (member p name)) h in
      (
        λ s e. Conforms-validate_value v s (member p name) (both.1 s e),
        members_of_valid vs properties p both.0,
      )

  items_of_valid :
      (vs : Items) (s : Value) (p : Place) (i : ℕ)
      → each_item s vs p i ≡ ok tt
      → ItemsConform (schema_fields s) vs
  items_of_valid nil s p i h = tt
  items_of_valid (cons v vs) s p i h =
      let both = >>-eq-ok (validate_value s v (item p i)) (each_item s vs p (i + 1)) h in
      (Conforms-validate_value v s (item p i) both.0, items_of_valid vs s p (i + 1) both.1)

-- Only a dict is a valid schema.
schema_is_dict : (s : Value) → validate_schema s false ≡ ok tt → s ≡ dict (schema_fields s)
unfolding validate_schema
schema_is_dict (dict fs) h = refl
schema_is_dict null h = cc
schema_is_dict (bool b) h = cc
schema_is_dict (int z) h = cc
schema_is_dict (float z k) h = cc
schema_is_dict (str t) h = cc
schema_is_dict (list xs) h = cc

property_valid :
    (s : Value) (vs : Fields)
    → validate_schema s false ≡ ok tt
    → has_kind (type_of (schema_fields s)) (dict vs) ≡ true
    → (name : String) (t : Value) → get name (properties_of (schema_fields s)) ≡ some t
    → validate_schema t false ≡ ok tt
unfolding has_kind
property_valid s vs valid kind name t g =
    validate_schema-property (schema_fields s) false name t
      (subst (λ x. validate_schema x false ≡ ok tt) (schema_is_dict s valid) valid) (ground arith) g

item_valid :
    (s : Value) (xs : Items)
    → validate_schema s false ≡ ok tt
    → has_kind (type_of (schema_fields s)) (list xs) ≡ true
    → validate_schema (item_schema (schema_fields s)) false ≡ ok tt
unfolding has_kind
item_valid s xs valid kind =
    validate_schema-items (schema_fields s) false
      (subst (λ x. validate_schema x false ≡ ok tt) (schema_is_dict s valid) valid) (ground arith)

mutual
  unfolding validate_value Conforms

  validate_value-Conforms :
      (v s : Value) (p : Place)
      → validate_schema s false ≡ ok tt
      → Conforms (schema_fields s) v
      → validate_value s v p ≡ ok tt
  validate_value-Conforms (dict vs) s p valid c =
      rw ((check_node_iff s (dict vs) p).1 (valid, c.0)) (
        members_of_conforms vs (properties_of (schema_fields s)) p (property_valid s vs valid c.0.0)
          c.1)
  validate_value-Conforms (list xs) s p valid c =
      rw ((check_node_iff s (list xs) p).1 (valid, c.0))
        (items_of_conforms xs (item_schema (schema_fields s)) p 0 (item_valid s xs valid c.0.0) c.1)
  validate_value-Conforms null s p valid c = (check_node_iff s null p).1 (valid, c)
  validate_value-Conforms (bool b) s p valid c = (check_node_iff s (bool b) p).1 (valid, c)
  validate_value-Conforms (int z) s p valid c = (check_node_iff s (int z) p).1 (valid, c)
  validate_value-Conforms (float z k) s p valid c = (check_node_iff s (float z k) p).1 (valid, c)
  validate_value-Conforms (str t) s p valid c = (check_node_iff s (str t) p).1 (valid, c)

  members_of_conforms :
      (vs properties : Fields) (p : Place)
      → ((name : String) (s : Value)
          → get name properties ≡ some s
          → validate_schema s false ≡ ok tt)
      → MembersConform properties vs
      → each_member properties vs p ≡ ok tt
  members_of_conforms end properties p valid c = refl
  members_of_conforms (field name v vs) properties p valid c =
      member_join (get name properties) (each_member properties vs p)
        (λ s. validate_value s v (member p name)) (members_of_conforms vs properties p valid c.1)
        (λ s e. validate_value-Conforms v s (member p name) (valid name s e) (c.0 s e))

  items_of_conforms :
      (vs : Items) (s : Value) (p : Place) (i : ℕ)
      → validate_schema s false ≡ ok tt
      → ItemsConform (schema_fields s) vs
      → each_item s vs p i ≡ ok tt
  items_of_conforms nil s p i valid c = refl
  items_of_conforms (cons v vs) s p i valid c =
      rw (validate_value-Conforms v s (item p i) valid c.0)
        (items_of_conforms vs s p (i + 1) valid c.1)

node_of_valid : (s v : Value) (p : Place) → validate_value s v p ≡ ok tt → check_node s v p ≡ ok tt
unfolding validate_value
node_of_valid s (dict vs) p h =
    (>>-eq-ok (check_node s (dict vs) p) (each_member (properties_of (schema_fields s)) vs p) h).0
node_of_valid s (list xs) p h =
    (>>-eq-ok (check_node s (list xs) p) (each_item (item_schema (schema_fields s)) xs p 0) h).0
node_of_valid s null p h = h
node_of_valid s (bool b) p h = h
node_of_valid s (int z) p h = h
node_of_valid s (float z k) p h = h
node_of_valid s (str t) p h = h

-- `validate_value` accepts a value, whatever the path is, exactly when the schema is a valid one and
-- the value conforms to it; so the validation of the nested schemas, which it repeats at each
-- member and item, never fails where the outer one passed.
pub validate_value-ok_iff :
    (schema v : Value) (p : Place)
    → (validate_value schema v p ≡ ok tt)
      ↔ ((validate_schema schema false ≡ ok tt) × Conforms (schema_fields schema) v)
validate_value-ok_iff schema v p = (
  λ h. (
    ((check_node_iff schema v p).0 (node_of_valid schema v p h)).0,
    Conforms-validate_value v schema p h,
  ),
  λ c. validate_value-Conforms v schema p c.0 c.1,
)
