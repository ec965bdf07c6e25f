-- ===== src/Json/Equality.antt =====
-- `==` on JSON values: numbers by value (a bool is a number), dicts in any order.
use maintune.Base.{◌≡◌, refl, Bool, true, false, Option, none, some, ◌&&◌, ◌==◌, string_eq, nat_eq}
use maintune.Base.Int.{pos, negsuc, int_eq}
use maintune.Json.{
  Value, null, bool, int, float, str, list, dict, Items, nil, cons, Fields, end, field, get,
  count_fields, Number, number_of, number_eq,
}

abbrev both_numbers : Option Number → Option Number → Bool
both_numbers (some a) (some b) = number_eq a b
both_numbers _ _ = false

unfoldable mutual
  pub eq_value : Value → Value → Bool
  eq_value null w = elim w [ null ↦ true | _ ↦ false ]
  eq_value (bool b) w = both_numbers (number_of (bool b)) (number_of w)
  eq_value (int z) w = both_numbers (number_of (int z)) (number_of w)
  eq_value (float z k) w = both_numbers (number_of (float z k)) (number_of w)
  eq_value (str s) w = elim w [ str t ↦ s == t | _ ↦ false ]
  eq_value (list xs) w = elim w [ list ys ↦ eq_items xs ys | _ ↦ false ]
  eq_value (dict fs) w = elim w [
    | dict gs ↦ count_fields fs == count_fields gs && eq_fields fs gs
    | _ ↦ false
  ]

  eq_items : Items → Items → Bool
  eq_items nil nil = true
  eq_items nil (cons y ys) = false
  eq_items (cons x xs) nil = false
  eq_items (cons x xs) (cons y ys) = eq_value x y && eq_items xs ys

  eq_fields : Fields → Fields → Bool
  eq_fields end gs = true
  eq_fields (field k v fs) gs = elim (get k gs) [
    | none ↦ false
    | some w ↦ eq_value v w && eq_fields fs gs
  ]

-- `a == b` of two results of `d.get(k)`, where `none` is Python's `None`.
abbrev pub eq_value? : Option Value → Option Value → Bool
eq_value? (some v) (some w) = eq_value v w
eq_value? none none = true
eq_value? none (some w) = eq_value null w
eq_value? (some v) none = eq_value v null

half_is_half : eq_value (float (pos 1) 1) (float (pos 2) 2) ≡ true
unfolding eq_value int_eq
half_is_half = refl

true_is_one : eq_value (bool true) (int (pos 1)) ≡ true
unfolding eq_value int_eq
true_is_one = refl

order_is_free :
    eq_value
      (dict (field "a" null (field "b" (int (negsuc 0)) end)))
      (dict (field "b" (int (negsuc 0)) (field "a" null end)))
    ≡ true
unfolding eq_value string_eq nat_eq int_eq
order_is_free = refl
