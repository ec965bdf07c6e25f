-- ===== src/Json/Same.antt =====
-- The equality of the texts that two JSON values are stored as: the comparison of a JSON column in SQL.
-- It is finer than `==`, for it tells 1 from 1.0 and minds the order of keys.
use maintune.Base.{◌≡◌, refl, Bool, true, false, ◌&&◌, ◌==◌, string_eq, nat_eq, bool_eq, arith}
use maintune.Base.Int.{int_eq}
use maintune.Json.{
  Value, null, bool, int, float, str, list, dict, Items, nil, cons, Fields, end, field,
}

unfoldable mutual
  pub same_value : Value → Value → Bool
  same_value null w = elim w [ null ↦ true | _ ↦ false ]
  same_value (bool b) w = elim w [ bool c ↦ b == c | _ ↦ false ]
  same_value (int z) w = elim w [ int y ↦ z == y | _ ↦ false ]
  same_value (float z k) w = elim w [ float y j ↦ z == y && k == j | _ ↦ false ]
  same_value (str s) w = elim w [ str t ↦ s == t | _ ↦ false ]
  same_value (list xs) w = elim w [ list ys ↦ same_items xs ys | _ ↦ false ]
  same_value (dict fs) w = elim w [ dict gs ↦ same_fields fs gs | _ ↦ false ]

  same_items : Items → Items → Bool
  same_items nil nil = true
  same_items nil (cons y ys) = false
  same_items (cons x xs) nil = false
  same_items (cons x xs) (cons y ys) = same_value x y && same_items xs ys

  pub same_fields : Fields → Fields → Bool
  same_fields end end = true
  same_fields end (field k v fs) = false
  same_fields (field k v fs) end = false
  same_fields (field k v fs) (field j w gs) = k == j && same_value v w && same_fields fs gs

mutual
  unfolding same_value

  pub same_value_refl : (v : Value) → same_value v v ≡ true
  same_value_refl null = refl
  same_value_refl (bool b) = ground arith
  same_value_refl (int z) = ground arith
  same_value_refl (float z k) = ground arith
  same_value_refl (str s) = ground arith
  same_value_refl (list xs) = same_items_refl xs
  same_value_refl (dict fs) = same_fields_refl fs

  same_items_refl : (xs : Items) → same_items xs xs ≡ true
  same_items_refl nil = refl
  same_items_refl (cons x xs) = ground (arith, same_value_refl x, same_items_refl xs)

  pub same_fields_refl : (fs : Fields) → same_fields fs fs ≡ true
  same_fields_refl end = refl
  same_fields_refl (field k v fs) = ground (arith, same_value_refl v, same_fields_refl fs)
