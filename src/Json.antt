-- ===== src/Json.antt =====
-- JSON values as Python holds them: what `json.loads` returns, and the content of the `data`
-- columns. A float is the number m / 2 ^ k that it stands for; NaN and the infinities are left out.
pub mod Equality
pub mod Same
pub mod Entries
use maintune.Base.{
  ℕ, ◌*◌, ◌^◌, ◌≡◌, String, Bool, true, false, not, Option, none, some, List, [], ◌∷◌, ◌++◌, ◌&&◌,
  ◌||◌, ltb, if◌then◌else◌, ◌==◌, contains, string_eq, nat_eq, suc, zero,
}
use maintune.Base.Int.{ℤ, pos, ltb_ℤ, int_eq, scale}

mutual
  pub data Value : Type 0 where
    null : Value
    bool : Bool → Value
    int : ℤ → Value
    float : ℤ → ℕ → Value
    str : String → Value
    list : Items → Value
    dict : Fields → Value

  -- The entries of a dict, in their order.
  pub data Fields : Type 0 where
    field : String → Value → Fields → Fields
    end : Fields

  -- The items of a list.
  pub data Items : Type 0 where
    cons : Value → Items → Items
    nil : Items

-- `d.get(k)`
abbrev pub get : String → Fields → Option Value
get k end = none
get k (field j v fs) = if k == j then some v else get k fs

-- `d.get(k)` where a missing value is `None`.
abbrev pub value_or_null : Option Value → Value
value_or_null none = null
value_or_null (some v) = v

-- The entries of a value that should be a dict.
abbrev pub fields_of : Value → Fields
fields_of (dict fs) = fs
fields_of v = end

-- `d[k] = v`
abbrev pub put : String → Value → Fields → Fields
put k v end = field k v end
put k v (field j w fs) = if k == j then field j v fs else field j w (put k v fs)

-- `{**d, **e}`
abbrev pub update : Fields → Fields → Fields
update d end = d
update d (field k v e) = update (put k v d) e

-- `{k: v for k, v in d.items() if k not in ks}`
abbrev pub without : List String → Fields → Fields
without ks end = end
without ks (field k v fs) =
    let rest = without ks fs in if contains ks k then rest else field k v rest

abbrev pub has_key : String → Fields → Bool
has_key k fs = elim (get k fs) [ none ↦ false | some v ↦ true ]

abbrev pub key_list : Fields → List String
key_list end = []
key_list (field k v fs) = k ∷ key_list fs

abbrev pub items : Items → List Value
items nil = []
items (cons x xs) = x ∷ items xs

abbrev pub count_items : Items → ℕ
count_items nil = 0
count_items (cons x xs) = suc (count_items xs)

abbrev pub count_fields : Fields → ℕ
count_fields end = 0
count_fields (field k v fs) = suc (count_fields fs)

-- `bool(v)`
abbrev pub truthy : Value → Bool
truthy null = false
truthy (bool b) = b
truthy (int z) = not (z == pos 0)
truthy (float z k) = not (z == pos 0)
truthy (str s) = not (s == "")
truthy (list nil) = false
truthy (list (cons x xs)) = true
truthy (dict end) = false
truthy (dict (field k v fs)) = true

-- The truth of `d.get(k)`.
abbrev pub truthy? : Option Value → Bool
truthy? none = false
truthy? (some v) = truthy v

-- The value of a number: m / 2 ^ k. A Python bool is the integer 0 or 1.
pub record Number : Type 0 where
  pub mantissa : ℤ
  pub shift : ℕ

abbrev pub number_of : Value → Option Number
number_of (bool true) = some (record { mantissa = pos 1; shift = 0 })
number_of (bool false) = some (record { mantissa = pos 0; shift = 0 })
number_of (int z) = some (record { mantissa = z; shift = 0 })
number_of (float z k) = some (record { mantissa = z; shift = k })
number_of _ = none

abbrev pub number_lt : Number → Number → Bool
number_lt a b = ltb_ℤ (scale a.mantissa (2 ^ b.shift)) (scale b.mantissa (2 ^ a.shift))

abbrev pub number_eq : Number → Number → Bool
number_eq a b = scale a.mantissa (2 ^ b.shift) == scale b.mantissa (2 ^ a.shift)
