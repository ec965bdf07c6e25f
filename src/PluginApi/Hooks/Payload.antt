-- ===== src/PluginApi/Hooks/Payload.antt =====
-- What the plugins can do to the payload of a dispatch.
use maintune.Base.{
  ℕ, ◌+◌, ◌≡◌, ◌≢◌, refl, sym, ◌∙◌, String, Bool, true, false, Option, List, [], ◌∷◌, ◌++◌,
  if◌then◌else◌, ◌==◌, string_eq, nat_eq,
}
use mathlib.Core.Path.{subst}
use maintune.Base.Result.{Result, ok, err, ok-injective}
use maintune.Json.{Value, Fields}
use maintune.PluginApi.Registration.{ExtensionRegistration}
use maintune.PluginApi.Hooks.{
  HookSpec, Behavior, notification, pipeline, replaceable, Failure, open_failure, closed_failure,
  HookDispatch, Outcome, Turn, Pass, went_on, stopped, broke, DispatchError, take_turn, pass,
  on_turn, on_failure, Attempt, called, completed_step, dispatched, dispatch_loop,
}

pipeline-differs : pipeline ≢ notification
pipeline-differs e = cc

replaceable-differs : replaceable ≢ notification
replaceable-differs e = cc

-- What a property of the payload says of a pass.
abbrev Keeps : (Value → Type 0) → Pass → Type 0
Keeps P (went_on now step) = P now
Keeps P (stopped d) = P d.payload
Keeps P (broke e) = Unit {0}

module _ (invoker : ExtensionRegistration → Value → String → ℕ → Outcome) (ids : ℕ → String)
    (spec : HookSpec) (original : Value) (P : Value → Type 0)
    (turn : (current : Value) (answer : Option Value) (t : Turn)
      → spec.behavior ≢ notification
      → take_turn spec original current answer ≡ ok t
      → P current
      → P t.current) where
  Keeps-if : (b : Bool) (x y : Pass) → Keeps P x → Keeps P y → Keeps P (if b then x else y)
  Keeps-if true x y p q = p
  Keeps-if false x y p q = q

  Keeps-failure :
      (f : Failure) (x y : Pass)
      → Keeps P x
      → Keeps P y
      → Keeps P (elim f [ open_failure ↦ x | closed_failure ↦ y ])
  Keeps-failure open_failure x y p q = p
  Keeps-failure closed_failure x y p q = q

  on_failure-Keeps :
      (item : ExtensionRegistration) (id : String) (current : Value) (e : String)
      → P current
      → Keeps P (on_failure spec item id current e)
  on_failure-Keeps item id current e p = Keeps-failure spec.failure _ _ p tt

  on_turn-Keeps :
      (item : ExtensionRegistration) (id : String) (current : Value) (steps : List Fields)
      (t : Turn)
      → P t.current
      → Keeps P (on_turn spec item id original current steps t)
  on_turn-Keeps item id current steps t p =
      Keeps-if (t.action == "cancel") _ _ p (Keeps-if (t.action == "wait") _ _ p p)

  turn-Keeps :
      (item : ExtensionRegistration) (id : String) (current : Value) (steps : List Fields)
      (answer : Option Value) (r : Result String Turn)
      → spec.behavior ≢ notification
      → take_turn spec original current answer ≡ r
      → P current
      → Keeps P (elim r [
        | err e ↦ on_failure spec item id current e
        | ok t ↦ on_turn spec item id original current steps t
      ])
  turn-Keeps item id current steps answer (ok t) b e p =
      on_turn-Keeps item id current steps t (turn current answer t b e p)
  turn-Keeps item id current steps answer (err x) b e p = on_failure-Keeps item id current x p

  called-Keeps :
      (current : Value) (steps : List Fields) (item : ExtensionRegistration) (id : String)
      (a : Attempt) (b : Behavior)
      → spec.behavior ≡ b
      → P current
      → Keeps P (elim a [
        | err e ↦ on_failure spec item id current e
        | ok r ↦ elim b [
          | notification ↦ went_on current (completed_step item id r.1)
          | _ ↦ elim (take_turn spec original current r.0) [
            | err e ↦ on_failure spec item id current e
            | ok t ↦ on_turn spec item id original current steps t
          ]
        ]
      ])
  called-Keeps current steps item id (err e) b same p = on_failure-Keeps item id current e p
  called-Keeps current steps item id (ok r) notification same p = p
  called-Keeps current steps item id (ok r) pipeline same p =
      turn-Keeps item id current steps r.0 _ (λ other. pipeline-differs (sym same ∙ other)) refl p
  called-Keeps current steps item id (ok r) replaceable same p =
      turn-Keeps item id current steps r.0 _ (λ other. replaceable-differs (sym same ∙ other)) refl
        p

  pass-Keeps :
      (current : Value) (steps : List Fields) (item : ExtensionRegistration) (id : String)
      → P current
      → Keeps P (pass invoker ids spec original current steps item id)
  unfolding pass
  pass-Keeps current steps item id p =
      called-Keeps current steps item id (called invoker ids spec item current id) spec.behavior
        refl p

  loop_result :
      (r : Pass) (go_on : Value → Fields → Result DispatchError HookDispatch) (d : HookDispatch)
      → Keeps P r
      → ((now : Value) (step : Fields) → P now → go_on now step ≡ ok d → P d.payload)
      → elim r [ went_on now step ↦ go_on now step | stopped d ↦ ok d | broke e ↦ err e ] ≡ ok d
      → P d.payload
  loop_result (went_on now step) go_on d p later h = later now step p h
  loop_result (stopped x) go_on d p later h =
      subst (λ (y : HookDispatch). P y.payload) (ok-injective x d h) p
  loop_result (broke e) go_on d p later h = cc

  pub dispatch_loop-Keeps :
      (entries : List ExtensionRegistration) (current : Value) (steps : List Fields) (n : ℕ)
      (d : HookDispatch)
      → P current
      → dispatch_loop invoker ids spec original current steps entries n ≡ ok d
      → P d.payload
  unfolding dispatch_loop
  dispatch_loop-Keeps [] current steps n d p h =
      subst (λ (y : HookDispatch). P y.payload)
        (ok-injective (dispatched "continue" current original steps) d h) p
  dispatch_loop-Keeps (item ∷ rest) current steps n d p h =
      loop_result (pass invoker ids spec original current steps item (ids n)) _ d
        (pass-Keeps current steps item (ids n) p)
        (λ now step q e. dispatch_loop-Keeps rest now (steps ++ step ∷ []) (n + 1) d q e) h
