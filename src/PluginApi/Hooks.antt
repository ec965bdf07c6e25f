-- ===== src/PluginApi/Hooks.antt =====
-- The hook catalog of backend/maintainer/plugin_api_v2.py, and `PluginRegistry.dispatch_hook`. The
-- invoker is a parameter: what a call of a plugin at an attempt returns, or the name of the type of
-- what it raises, a timeout included. So are the invocation ids that `uuid` draws.
pub mod Catalog
pub mod Payload
pub mod Turns
pub mod Dispatch
pub mod Prompt
use maintune.Base.{
  ℕ, suc, ◌+◌, String, ◌<>◌, Bool, true, false, not, ◌&&◌, ◌||◌, Option, none, some, List, [], ◌∷◌,
  ◌++◌, filter, leb, if◌then◌else◌, ◌==◌, string_eq, nat_eq,
}
use maintune.Base.Int.{ℤ, pos, ltb_ℤ, int_eq}
use maintune.Base.Result.{Result, ok, err, ◌>>=◌, ◌>>◌}
use maintune.Json.{Value, null, int, str, dict, Fields, end, field, get, put, update}
use maintune.Json.Equality.{eq_value?}
use maintune.PluginApi.Schema.{int_of}
use maintune.PluginApi.Value.{Place, root, validate_value}
use maintune.PluginApi.Registration.{ExtensionRegistration, text_of, or_null}
use maintune.PluginApi.Registry.{PluginRegistry, list_kind}

pub data Behavior : Type 0 where
  notification pipeline replaceable : Behavior

pub data Failure : Type 0 where
  open_failure closed_failure : Failure

pub record HookSpec : Type 0 where
  pub name : String
  pub behavior : Behavior
  pub parallel : Bool
  pub failure : Failure
  pub timeout : ℕ
  pub retry_safe : Bool
  pub input_schema : Value
  pub output_schema : Option Value

pub record HookDispatch : Type 0 where
  pub action : String
  pub payload : Value
  pub original : Value
  pub steps : List Fields
  pub waiting_for_plugin : Option String
  pub waiting_invocation_id : Option String
  pub cancelled_by : Option String

-- What a plugin call comes to: a value, `None` or an exception of a type.
pub data Outcome : Type 0 where
  returned : Option Value → Outcome
  raised : String → Outcome

abbrev pub Attempt : Type 0
Attempt = Result String (Option Value × ℕ)

abbrev outcome_at : ℕ → Outcome → Attempt
outcome_at attempt (returned v) = ok (v, attempt)
outcome_at attempt (raised e) = err e

-- `call_with_retry`: at most two attempts, the second only of a hook that may be retried.
unfoldable pub call_with_retry : HookSpec → (ℕ → Outcome) → Attempt
call_with_retry spec call = elim (call 1) [
  | returned v ↦ ok (v, 1)
  | raised e ↦ if spec.retry_safe then outcome_at 2 (call 2) else err e
]

abbrev attempts_of : HookSpec → Value
attempts_of spec = int (pos (if spec.retry_safe then 2 else 1))

abbrev pub completed_step : ExtensionRegistration → String → ℕ → Fields
completed_step item id attempt = field "plugin_id" (str item.plugin_id) (
    field "status" (str "completed")
      (field "invocation_id" (str id) (field "attempts" (int (pos attempt)) end)))

abbrev failed_step : HookSpec → ExtensionRegistration → String → String → Fields
failed_step spec item id error = field "plugin_id" (str item.plugin_id) (
    field "status" (str "failed") (
      field "error_type" (str error)
        (field "invocation_id" (str id) (field "attempts" (attempts_of spec) end))))

abbrev action_step : HookSpec → ExtensionRegistration → String → String → Value → Value → Fields
action_step spec item id action previous current =
    let step = field "plugin_id" (str item.plugin_id) (
      field "status" (str "completed")
        (field "action" (str action) (field "invocation_id" (str id) end))) in
    elim spec.behavior [
      | pipeline ↦ update step (field "input" previous (field "output" current end))
      | _ ↦ step
    ]

-- What a response does: the payload from now on, and the action.
pub record Turn : Type 0 where
  pub current : Value
  pub action : String

abbrev pub get_from : String → Value → Option Value
get_from key (dict fs) = get key fs
get_from key v = none

abbrev pub put_into : String → Value → Value → Value
put_into key v (dict fs) = dict (put key v fs)
put_into key v w = w

abbrev pub valid_or : Value → Value → String → Result String (Unit {0})
valid_or schema v place = elim (validate_value schema v (root place)) [
  | ok u ↦ ok tt
  | err e ↦ err "PluginSchemaError"
]

-- `spec.output_schema or {}`
abbrev pub output_of : HookSpec → Value
output_of spec = elim spec.output_schema [ none ↦ dict end | some s ↦ s ]

unfoldable pub modify : HookSpec → Value → Value → String → Result String Value
modify spec current response action = elim spec.behavior [
  | pipeline ↦
      if action == "modify"
      then (do
        let updated = or_null (get_from "payload" response)
        valid_or spec.input_schema updated "modified_payload"
        ok updated)
      else ok current
  | _ ↦ ok current
]

unfoldable pub replace : Value → Value → Value → String → Result String Value
replace original current response action =
    if action == "replace"
    then elim (get_from "result" response) [
      | none ↦ err "KeyError"
      | some result ↦
          if eq_value? (get_from "head_sha" result) (get_from "head_sha" original)
          then ok (put_into "review_result" result current)
          else err "PluginSchemaError"
    ]
    else ok current

abbrev pub answer_or_continue : Option Value → Value
answer_or_continue none = dict (field "action" (str "continue") end)
answer_or_continue (some v) = v

abbrev pub action_of : Value → Result String String
action_of response = elim (get_from "action" response) [
  | none ↦ err "KeyError"
  | some v ↦ ok (text_of v)
]

-- The body of the `try` after the call, for a hook that is no notification.
unfoldable pub take_turn : HookSpec → Value → Value → Option Value → Result String Turn
take_turn spec original current answer = do
  let response = answer_or_continue answer
  valid_or (output_of spec) response "hook_result"
  action ← action_of response
  updated ← modify spec current response action
  replaced ← replace original updated response action
  ok (record { current = replaced; action = action })

abbrev priority_of : ExtensionRegistration → ℤ
priority_of r = elim (get "priority" r.metadata) [
  | none ↦ pos 100
  | some v ↦ elim (int_of v) [ none ↦ pos 100 | some z ↦ z ]
]

abbrev leb_order : ExtensionRegistration → ExtensionRegistration → Bool
leb_order a b =
    let p = priority_of a in
    let q = priority_of b in ltb_ℤ p q || p == q && leb a.load_order b.load_order

insert_by_order : ExtensionRegistration → List ExtensionRegistration → List ExtensionRegistration
insert_by_order r [] = r ∷ []
insert_by_order r (q ∷ qs) = if leb_order r q then r ∷ q ∷ qs else q ∷ insert_by_order r qs

sort_by_order : List ExtensionRegistration → List ExtensionRegistration
sort_by_order [] = []
sort_by_order (r ∷ rs) = insert_by_order r (sort_by_order rs)

-- The registrations of the hook, by priority and then load order.
unfoldable pub entries_of : String → PluginRegistry → List ExtensionRegistration
unfolding insert_by_order sort_by_order
entries_of name g = sort_by_order (filter (λ r. r.name == name) (list_kind (some "hook") g))

abbrev pub dispatched : String → Value → Value → List Fields → HookDispatch
dispatched action current original steps = record {
  action = action;
  payload = current;
  original = original;
  steps = steps;
  waiting_for_plugin = none;
  waiting_invocation_id = none;
  cancelled_by = none;
}

-- A dispatch ends by an exception only if the payload or the hook is wrong, or the hook fails closed.
pub data DispatchError : Type 0 where
  unknown_hook invalid_payload : DispatchError
  plugin_failed : String → DispatchError

-- What one pass of the loop comes to: the payload and a step to go on with, a return or an exception.
pub data Pass : Type 0 where
  went_on : Value → Fields → Pass
  stopped : HookDispatch → Pass
  broke : DispatchError → Pass

-- The `except` clause: the payload stays as it was.
abbrev pub on_failure : HookSpec → ExtensionRegistration → String → Value → String → Pass
on_failure spec item id current e = elim spec.failure [
  | open_failure ↦ went_on current (failed_step spec item id e)
  | closed_failure ↦ broke (plugin_failed e)
]

-- The end of the `try`: the step, and the return of a cancelled or a waiting dispatch.
abbrev pub on_turn :
    HookSpec → ExtensionRegistration → String → Value → Value → List Fields → Turn → Pass
on_turn spec item id original current steps t =
    let step : Fields = action_step spec item id t.action current t.current in
    let done : HookDispatch = dispatched t.action t.current original (steps ++ step ∷ []) in
    if t.action == "cancel"
    then stopped (record done { cancelled_by = some item.plugin_id })
    else if t.action == "wait"
    then stopped
        (record done { waiting_for_plugin = some item.plugin_id; waiting_invocation_id = some id })
    else went_on t.current step

module _ (invoker : ExtensionRegistration → Value → String → ℕ → Outcome) (ids : ℕ → String) where
  abbrev pub called : HookSpec → ExtensionRegistration → Value → String → Attempt
  called spec item current id = call_with_retry spec (invoker item current id)

  -- `asyncio.gather` over `call_one`
  unfoldable pub call_all : HookSpec → Value → List ExtensionRegistration → ℕ → List Fields
  call_all spec current [] n = []
  call_all spec current (item ∷ rest) n =
      let id = ids n in
      (elim (called spec item current id) [
        | ok r ↦ completed_step item id r.1
        | err e ↦ failed_step spec item id e
      ])
      ∷ call_all spec current rest (n + 1)

  -- One pass of the `for` loop.
  unfoldable pub pass :
      HookSpec → Value → Value → List Fields → ExtensionRegistration → String → Pass
  pass spec original current steps item id = elim (called spec item current id) [
    | err e ↦ on_failure spec item id current e
    | ok r ↦ elim spec.behavior [
      | notification ↦ went_on current (completed_step item id r.1)
      | _ ↦ elim (take_turn spec original current r.0) [
        | err e ↦ on_failure spec item id current e
        | ok t ↦ on_turn spec item id original current steps t
      ]
    ]
  ]

  -- The `for` loop.
  unfoldable pub dispatch_loop :
      HookSpec
      → Value
      → Value
      → List Fields
      → List ExtensionRegistration
      → ℕ
      → Result DispatchError HookDispatch
  dispatch_loop spec original current steps [] n = ok (dispatched "continue" current original steps)
  dispatch_loop spec original current steps (item ∷ rest) n =
      elim (pass spec original current steps item (ids n)) [
        | went_on now step ↦ dispatch_loop spec original now (steps ++ step ∷ []) rest (n + 1)
        | stopped d ↦ ok d
        | broke e ↦ err e
      ]
