-- ===== src/Json/Entries.antt =====
-- What a dict holds after an entry is put or left out.
use maintune.Base.{
  ◌≡◌, refl, String, true, none, some, List, [], ◌∷◌, arith, if◌then◌else◌, ◌==◌, string_eq,
  contains,
}
use maintune.Json.{Value, Fields, end, field, get, put, without, has_key}

pub get-put :
    (j k : String) (v : Value) (fs : Fields)
    → get j (put k v fs) ≡ (if j == k then some v else get j fs)
get-put j k v end = refl
get-put j k v (field i w fs) = ground (arith, get-put j k v fs)

pub get-without :
    (j : String) (ks : List String) (fs : Fields)
    → get j (without ks fs) ≡ (if contains ks j then none else get j fs)
get-without j ks end = ground arith
get-without j ks (field i w fs) = ground (arith, get-without j ks fs)

pub has_key-put :
    (j k : String) (v : Value) (fs : Fields)
    → has_key j (put k v fs) ≡ (if j == k then true else has_key j fs)
has_key-put j k v fs = ground (arith, get-put j k v fs)

-- A value that is put back as it is changes nothing.
pub put-get : (k : String) (v : Value) (fs : Fields) → get k fs ≡ some v → put k v fs ≡ fs
put-get k v end h = cc
put-get k v (field j w fs) h = ground (arith, put-get k v fs)

-- Leaving out two keys that are not there changes nothing.
pub without_absent :
    (a b : String) (fs : Fields) → get a fs ≡ none → get b fs ≡ none → without (a ∷ b ∷ []) fs ≡ fs
without_absent a b end ha hb = refl
without_absent a b (field j w fs) ha hb = ground (arith, without_absent a b fs)
