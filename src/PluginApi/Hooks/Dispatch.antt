-- ===== src/PluginApi/Hooks/Dispatch.antt =====
-- What comes out of `dispatch_hook`, whatever the plugins answer.
use maintune.Base.{
  ℕ, ◌≡◌, ◌≢◌, refl, sym, ◌∙◌, ◌⊎◌, inl, inr, String, Option, some, List, [], arith, string_eq,
  nat_eq,
}
use maintune.Base.Result.{Result, ok}
use maintune.Json.{Value, Fields}
use maintune.PluginApi.Value.{root, validate_value}
use maintune.PluginApi.Registration.{ExtensionRegistration}
use maintune.PluginApi.Registry.{PluginRegistry}
use maintune.PluginApi.Hooks.{
  HookSpec, HookDispatch, notification, open_failure, Outcome, Turn, DispatchError, take_turn, Pass,
  broke, on_failure, on_turn, dispatch_loop, entries_of,
}
use maintune.PluginApi.Hooks.Payload.{dispatch_loop-Keeps}
use maintune.PluginApi.Hooks.Turns.{took_turn, modify-same, IsCurrentReview, replace-cases}
use maintune.PluginApi.Hooks.Catalog.{
  pr_review, hook_catalog, find_hook, dispatch_spec, dispatch_hook,
}

-- The pass does not raise.
abbrev IsOpen : Pass → Type 0
IsOpen r = (e : DispatchError) → r ≢ broke e

module _ (invoker : ExtensionRegistration → Value → String → ℕ → Outcome) (ids : ℕ → String) where
  -- The two ways through `dispatch_spec`, for a payload that the schema accepts.
  pub dispatch_spec-loop :
      (spec : HookSpec) (payload : Value) (g : PluginRegistry) (d : HookDispatch)
      → dispatch_spec invoker ids spec payload g ≡ ok d
      → (validate_value spec.input_schema payload (root "input") ≡ ok tt)
        × ((d.payload ≡ payload)
            ⊎ (dispatch_loop invoker ids spec payload payload [] (entries_of spec.name g) 0 ≡ ok d))
  unfolding dispatch_spec
  dispatch_spec-loop spec payload g d h = ground arith

  -- A notification hook leaves the payload as it was dispatched.
  notification_payload :
      (spec : HookSpec) (payload : Value) (g : PluginRegistry) (d : HookDispatch)
      → spec.behavior ≡ notification
      → dispatch_spec invoker ids spec payload g ≡ ok d
      → d.payload ≡ payload
  notification_payload spec payload g d b h = elim (dispatch_spec-loop spec payload g d h).1 [
    | inl same ↦ same
    | inr loop ↦
        dispatch_loop-Keeps invoker ids spec payload (λ v. v ≡ payload)
          (λ current answer t other took p. ground arith) (entries_of spec.name g) payload [] 0 d
          refl loop
  ]

  pub dispatch_hook-spec :
      (name : String) (spec : HookSpec) (payload : Value) (g : PluginRegistry)
      → find_hook name hook_catalog ≡ some spec
      → dispatch_hook invoker ids name payload g ≡ dispatch_spec invoker ids spec payload g
  unfolding dispatch_hook
  dispatch_hook-spec name spec payload g e = ground arith

  review_turn :
      (original current : Value) (answer : Option Value) (t : Turn)
      → take_turn pr_review original current answer ≡ ok t
      → (current ≡ original) ⊎ IsCurrentReview original current
      → (t.current ≡ original) ⊎ IsCurrentReview original t.current
  review_turn original current answer t h p =
      let took = took_turn pr_review original current answer t h in
      let same = modify-same pr_review current _ t.action took.updated refl took.modified in
      ground (arith, replace-cases original took.updated _ t.action t.current took.replaced)

  -- When the review hook returns, the payload is the dispatched one, or it holds a review result whose
  -- head is the head of the dispatched pull request: a stale replacement never gets through.
  review_payload :
      (payload : Value) (g : PluginRegistry) (d : HookDispatch)
      → dispatch_hook invoker ids "pr.review" payload g ≡ ok d
      → (d.payload ≡ payload) ⊎ IsCurrentReview payload d.payload
  unfolding find_hook string_eq
  review_payload payload g d h =
      elim (dispatch_spec-loop pr_review payload g d
        (sym (dispatch_hook-spec "pr.review" pr_review payload g refl) ∙ h)).1 [
          | inl same ↦ inl same
          | inr loop ↦
              dispatch_loop-Keeps invoker ids pr_review payload
                (λ v. (v ≡ payload) ⊎ IsCurrentReview payload v)
                (λ current answer t other took p. review_turn payload current answer t took p)
                (entries_of "pr.review" g) payload [] 0 d (inl refl) loop
        ]

  on_failure-IsOpen :
      (spec : HookSpec) (item : ExtensionRegistration) (id : String) (current : Value) (e : String)
      → spec.failure ≡ open_failure
      → IsOpen (on_failure spec item id current e)
  on_failure-IsOpen spec item id current e o x h = ground arith

  on_turn-IsOpen :
      (spec : HookSpec) (item : ExtensionRegistration) (id : String) (original current : Value)
      (steps : List Fields) (t : Turn)
      → IsOpen (on_turn spec item id original current steps t)
  on_turn-IsOpen spec item id original current steps t x h = ground arith
