-- ===== src/PluginApi/Value/Conforms.antt =====
-- What `validate_value` decides, as a predicate on the value.
pub mod Correct
use mathlib.Core.Path.{subst}
use maintune.Base.{
  ℕ, suc, ◌+◌, ◌≡◌, ◌↔◌, refl, sym, ◌∙◌, String, ◌<>◌, Bool, true, false, not, ◌&&◌, ◌||◌, Option,
  none, some, List, [], ◌∷◌, arith, all, All, length, contains, if◌then◌else◌, ◌==◌, string_eq, ltb,
  leb, Option-cases, inl, inr,
}
use maintune.Base.Int.{ℤ, pos, ltb_ℤ, ◌≤ℤ◌}
use maintune.Base.Result.{Result, ok, err, ◌>>=◌, ◌>>◌, >>-eq-ok}
use maintune.Base.Text.{codes}
use maintune.Json.{
  Value, null, bool, int, float, str, list, dict, Items, nil, cons, Fields, end, field, get,
  has_key, key_list, count_items,
}
use maintune.PluginApi.Schema.{SchemaError, Checked, validate_schema}
use maintune.PluginApi.Value.{
  Place, member, item, Valid, valid_if, lift, type_of, has_kind, in_enum, int_or, count_fits,
  in_range, properties_of, required_of, is_closed, check_names, check_members, check_self,
  check_node, schema_fields, item_schema, validate_value, each_member, each_item,
}
use maintune.PluginApi.Value.Schemas.{validate_schema-property, validate_schema-items}

-- The count lies between the two bounds of the schema, or their defaults.
abbrev CountFits : String → String → ℕ → Fields → ℕ → Type 0
CountFits lower upper default fs n =
    (int_or (pos 0) (get lower fs) ≤ℤ pos n) × (pos n ≤ℤ int_or (pos default) (get upper fs))

-- The required names are there, and a closed schema knows every name.
abbrev MembersFit : Fields → Fields → Type 0
MembersFit fs vs =
    All (λ name. has_key name vs ≡ true) (required_of fs)
    × (is_closed fs ≡ true → All (λ name. has_key name (properties_of fs) ≡ true) (key_list vs))

abbrev SizeFits : Fields → Value → Type 0
SizeFits fs (dict vs) = MembersFit fs vs
SizeFits fs (list xs) = CountFits "minItems" "maxItems" 10000 fs (count_items xs)
SizeFits fs (str s) = CountFits "minLength" "maxLength" 1000000 fs (length (codes s))
SizeFits fs (int z) = in_range fs (int z) ≡ true
SizeFits fs (float z k) = in_range fs (float z k) ≡ true
SizeFits fs (bool b) = Unit
SizeFits fs null = Unit

abbrev SelfFits : Fields → Value → Type 0
SelfFits fs v =
    (has_kind (type_of fs) v ≡ true) × (in_enum (get "enum" fs) v ≡ true) × SizeFits fs v

-- A value conforms to a schema if it fits by itself, each member with a property of that name
-- conforms to the property, and each item conforms to the schema of the items.
unfoldable mutual
  pub Conforms : Fields → Value → Type 0
  Conforms fs (dict vs) = SelfFits fs (dict vs) × MembersConform (properties_of fs) vs
  Conforms fs (list xs) = SelfFits fs (list xs) × ItemsConform (schema_fields (item_schema fs)) xs
  Conforms fs v = SelfFits fs v

  pub MembersConform : Fields → Fields → Type 0
  MembersConform properties end = Unit
  MembersConform properties (field name v vs) =
      ((s : Value) → get name properties ≡ some s → Conforms (schema_fields s) v)
      × MembersConform properties vs

  ItemsConform : Fields → Items → Type 0
  ItemsConform fs nil = Unit
  ItemsConform fs (cons v vs) = Conforms fs v × ItemsConform fs vs

valid_if_iff : (b : Bool) (p : Place) (m : String) → (valid_if b p m ≡ ok tt) ↔ (b ≡ true)
valid_if_iff true p m = ground arith
valid_if_iff false p m = ground arith

count_fits_iff :
    (lower upper : String) (d : ℕ) (fs : Fields) (n : ℕ)
    → (count_fits lower upper d fs n ≡ true) ↔ CountFits lower upper d fs n
unfolding count_fits
count_fits_iff lower upper d fs n = ground arith

all_iff :
    (p : String → Bool) (names : List String)
    → (all p names ≡ true) ↔ All (λ name. p name ≡ true) names
all_iff p [] = (λ h. tt, λ h. refl)
all_iff p (n ∷ names) = ground (arith, all_iff p names)

check_names_iff :
    (names : List String) (vs : Fields) (p : Place)
    → (check_names names vs p ≡ ok tt) ↔ All (λ name. has_key name vs ≡ true) names
unfolding check_names
check_names_iff [] vs p = (λ h. tt, λ h. refl)
check_names_iff (n ∷ names) vs p =
    ground
      (arith, valid_if_iff (has_key n vs) (member p n) "is required", check_names_iff names vs p)

check_members_iff :
    (fs vs : Fields) (p : Place) → (check_members fs vs p ≡ ok tt) ↔ MembersFit fs vs
unfolding check_members
check_members_iff fs vs p = ground (
  arith,
  check_names_iff (required_of fs) vs p,
  all_iff (λ name. has_key name (properties_of fs)) (key_list vs),
)

check_self_iff : (fs : Fields) (v : Value) (p : Place) → (check_self fs v p ≡ ok tt) ↔ SelfFits fs v
unfolding check_self
check_self_iff fs (dict vs) p = ground (arith, check_members_iff fs vs p)
check_self_iff fs (list xs) p =
    ground (arith, count_fits_iff "minItems" "maxItems" 10000 fs (count_items xs))
check_self_iff fs (str s) p =
    ground (arith, count_fits_iff "minLength" "maxLength" 1000000 fs (length (codes s)))
check_self_iff fs v p = ground arith
