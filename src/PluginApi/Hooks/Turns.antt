-- ===== src/PluginApi/Hooks/Turns.antt =====
-- What one turn of a plugin does to the payload, by the behavior of the hook.
use maintune.Base.{
  ◌≡◌, refl, ◌⊎◌, inl, inr, String, true, Option, none, some, arith, if◌then◌else◌, ◌==◌, string_eq,
  nat_eq, Bool-cases,
}
use mathlib.Core.Path.{subst}
use maintune.Base.Result.{Result, ok, err, >>=-eq-ok, >>-eq-ok, ok-injective}
use maintune.Json.{Value, dict, Fields, end, field, get, put}
use maintune.Json.Equality.{eq_value?}
use maintune.PluginApi.Value.{root, schema_fields}
use maintune.PluginApi.Value.Conforms.{Conforms}
use maintune.PluginApi.Value.Conforms.Correct.{validate_value-ok_iff}
use maintune.PluginApi.Registration.{or_null}
use maintune.PluginApi.Hooks.{
  HookSpec, replaceable, Turn, take_turn, get_from, put_into, valid_or, output_of,
  answer_or_continue, action_of, modify, replace,
}

-- What `take_turn` did, when it did not fail.
pub record TookTurn (spec : HookSpec) (original current : Value) (answer : Option Value) (t : Turn)
    : Type 0 where
  pub valid : valid_or (output_of spec) (answer_or_continue answer) "hook_result" ≡ ok tt
  pub acted : action_of (answer_or_continue answer) ≡ ok t.action
  pub updated : Value
  pub modified : modify spec current (answer_or_continue answer) t.action ≡ ok updated
  pub replaced : replace original updated (answer_or_continue answer) t.action ≡ ok t.current

pub took_turn :
    (spec : HookSpec) (original current : Value) (answer : Option Value) (t : Turn)
    → take_turn spec original current answer ≡ ok t
    → TookTurn spec original current answer t
unfolding take_turn
took_turn spec original current answer t h =
    let response = answer_or_continue answer in
    let both = >>-eq-ok (valid_or (output_of spec) response "hook_result") _ h in
    let acting = >>=-eq-ok (action_of response) _ both.1 in
    let modifying = >>=-eq-ok (modify spec current response acting.0) _ acting.2 in
    let replacing = >>=-eq-ok (replace original modifying.0 response acting.0) _ modifying.2 in
    subst (TookTurn spec original current answer)
      (ok-injective (record { current = replacing.0; action = acting.0 }) t replacing.2)
      (record {
        valid = both.0;
        acted = acting.1;
        updated = modifying.0;
        modified = modifying.1;
        replaced = replacing.1;
      })

pub valid_or-Conforms :
    (schema v : Value) (place : String)
    → valid_or schema v place ≡ ok tt
    → Conforms (schema_fields schema) v
valid_or-Conforms schema v place h =
    ((validate_value-ok_iff schema v (root place)).0 (ground arith)).1

-- `modify` leaves a payload that conforms to the schema of the hook's input.
pub modify-Conforms :
    (spec : HookSpec) (current response : Value) (action : String) (updated : Value)
    → modify spec current response action ≡ ok updated
    → Conforms (schema_fields spec.input_schema) current
    → Conforms (schema_fields spec.input_schema) updated
unfolding modify
modify-Conforms spec current response action updated h c = ground (
  arith,
  valid_or-Conforms spec.input_schema (or_null (get_from "payload" response)) "modified_payload",
)

pub modify-same :
    (spec : HookSpec) (current response : Value) (action : String) (updated : Value)
    → spec.behavior ≡ replaceable
    → modify spec current response action ≡ ok updated
    → updated ≡ current
unfolding modify
modify-same spec current response action updated b h = ground arith

-- A review result in the payload is for the head of the dispatched pull request.
abbrev pub IsCurrentReview : Value → Value → Type 0
IsCurrentReview original v =
    (result : Value) × (get_from "review_result" v ≡ some result)
    × (eq_value? (get_from "head_sha" result) (get_from "head_sha" original) ≡ true)

get-put : (k : String) (v : Value) (fs : Fields) → get k (put k v fs) ≡ some v
get-put k v end = ground arith
get-put k v (field j w fs) = ground (arith, get-put k v fs)

put_into-cases :
    (k : String) (v w : Value) → (put_into k v w ≡ w) ⊎ (get_from k (put_into k v w) ≡ some v)
put_into-cases k v (dict fs) = inr (get-put k v fs)
put_into-cases k v w = inl refl

replaced_by :
    (original current : Value) (result : Option Value) (replaced : Value)
    → ◌≡◌ {A = Result String Value}
        (elim result as (λ r. Result String Value) [
          | none ↦ err "KeyError"
          | some v ↦
              if eq_value? (get_from "head_sha" v) (get_from "head_sha" original)
              then ok (put_into "review_result" v current)
              else err "PluginSchemaError"
        ])
        (ok replaced)
    → (replaced ≡ current) ⊎ IsCurrentReview original replaced
replaced_by original current none replaced h = cc
replaced_by original current (some v) replaced h =
    elim (Bool-cases (eq_value? (get_from "head_sha" v) (get_from "head_sha" original))) [
      | inl e ↦
          let same : put_into "review_result" v current ≡ replaced = ground arith in
          subst (λ x. (x ≡ current) ⊎ IsCurrentReview original x) same
            (elim (put_into-cases "review_result" v current) [
              | inl unchanged ↦ inl unchanged
              | inr stored ↦ inr (v, stored, e)
            ])
      | inr e ↦ ground arith
    ]

-- `replace` leaves the payload or stores a result for the dispatched head.
pub replace-cases :
    (original current response : Value) (action : String) (replaced : Value)
    → replace original current response action ≡ ok replaced
    → (replaced ≡ current) ⊎ IsCurrentReview original replaced
unfolding replace
replace-cases original current response action replaced h =
    elim (Bool-cases (action == "replace")) [
      | inl e ↦ replaced_by original current (get_from "result" response) replaced (rw e at h)
      | inr e ↦ inl (ground arith)
    ]
