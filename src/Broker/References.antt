-- ===== src/Broker/References.antt =====
-- The references that tasks have for a plugin, and the keys that its events keep.
use maintune.Base.{
  ℕ, zero, suc, ◌≡◌, refl, ◌⊎◌, inl, inr, String, true, none, List, [], ◌∷◌, arith, if◌then◌else◌,
  ◌==◌, nat_eq, take, min, length, Bool-cases, string_eq,
}
use maintune.Base.Text.{Text, starts_with}
use maintune.Base.Unicode.{Unicode}
use maintune.Json.{Fields, end, field, get}
use maintune.Broker.{with_prefix, shorten, short_task_reference, safe_data, is_sensitive_key}

starts_with-take : (n : ℕ) (s : Text) → starts_with s (take n s) ≡ true
starts_with-take zero [] = refl
starts_with-take zero (c ∷ s) = refl
starts_with-take (suc n) [] = refl
starts_with-take (suc n) (c ∷ s) = ground (arith, starts_with-take n s)

starts_with_self : (s : Text) → starts_with s s ≡ true
starts_with_self [] = refl
starts_with_self (c ∷ s) = ground (arith, starts_with_self s)

-- A reference that stands for one task, or the whole id.
abbrev pub IsReferenceTo : Text → List Text → Text → Type 0
IsReferenceTo id ids r = (starts_with id r ≡ true) × ((with_prefix r ids ≡ 1) ⊎ (r ≡ id))

shorten-IsReferenceTo :
    (left n : ℕ) (id : Text) (ids : List Text) → IsReferenceTo id ids (shorten left n id ids)
unfolding shorten
shorten-IsReferenceTo zero n id ids = (starts_with_self id, inr refl)
shorten-IsReferenceTo (suc left) n id ids = elim (Bool-cases (with_prefix (take n id) ids == 1)) [
  | inl e ↦ rw e (starts_with-take n id, inl (ground arith))
  | inr e ↦ rw e (shorten-IsReferenceTo left (suc n) id ids)
]

-- The short reference of a task is a prefix of its id, and exactly one of the ids has that prefix, unless the
-- reference is the whole id.
pub short_task_reference-IsReferenceTo :
    (id : Text) (ids : List Text) → IsReferenceTo id ids (short_task_reference id ids)
unfolding short_task_reference
short_task_reference-IsReferenceTo id ids =
    shorten-IsReferenceTo (suc (length id)) (min 8 (length id)) id ids

-- An event tells a plugin exactly the data whose key holds none of the secret words.
get-safe_data :
    (u : Unicode) (data_of : Fields) (k : String)
    → get k (safe_data u data_of) ≡ (if is_sensitive_key u k then none else get k data_of)
unfolding safe_data
get-safe_data u end k = ground arith
get-safe_data u (field j v fs) k = ground (arith, get-safe_data u fs k)
