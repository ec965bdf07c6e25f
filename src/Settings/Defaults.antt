-- ===== src/Settings/Defaults.antt =====
-- What a reset of a model does to the agreement of its defaults with its capabilities.
use maintune.Base.{
  ◌≡◌, ◌≢◌, ◌↔◌, refl, String, Bool, true, false, not, ◌&&◌, Option, none, some, List, [], ◌∷◌, ◌⊎◌,
  inl, inr, ◌++◌, arith, string_eq,
}
use maintune.Base.Result.{ok}
use maintune.Settings.Schemas.{
  ModelDefinition, ModelDefaults, ReasoningConfig, GenerationConfig, ModelCapabilities,
  ReasoningMode, mode_auto, Effort, inherit, default_reasoning, default_generation, no_capabilities,
}
use maintune.Settings.Checks.{
  conflicts, parameters_match_capabilities, has_value, is_inherit, is_auto, unsupported,
}
use maintune.Settings.Resets.{reset_model}

unsupported-nil :
    (supported set : Bool) (what : String) (rest : List String)
    → (unsupported supported set what ++ rest ≡ []) ↔ ((not supported && set ≡ false) × (rest ≡ []))
unsupported-nil true set what rest = ground arith
unsupported-nil false true what rest = ground arith
unsupported-nil false false what rest = ground arith

last-nil :
    (supported set : Bool) (what : String)
    → (unsupported supported set what ≡ []) ↔ (not supported && set ≡ false)
last-nil true set what = ground arith
last-nil false true what = ground arith
last-nil false false what = ground arith

List-cases : (ss : List String) → (ss ≡ []) ⊎ ((t : String) × (ts : List String) × (ss ≡ t ∷ ts))
List-cases [] = inl refl
List-cases (t ∷ ts) = inr (t, ts, refl)

-- No default is set of a feature that the model does not have.
abbrev Agrees : ModelCapabilities → ModelDefaults → Type 0
Agrees c v =
    (not c.supports_reasoning && not (is_auto v.reasoning.mode) ≡ false)
    × (not c.supports_reasoning_effort && not (is_inherit v.reasoning.effort) ≡ false)
    × (not c.supports_reasoning_budget && has_value v.reasoning.budget ≡ false)
    × (not c.supports_temperature && has_value v.generation.temperature ≡ false)
    × (not c.supports_top_p && has_value v.generation.top_p ≡ false)
    × (not c.supports_max_output_tokens && has_value v.generation.max_output_tokens ≡ false)

abbrev after_top_p : ModelDefinition → List String
after_top_p d =
    unsupported d.capabilities.supports_max_output_tokens
      (has_value d.defaults.generation.max_output_tokens) "max_output_tokens"

abbrev after_temperature : ModelDefinition → List String
after_temperature d =
    unsupported d.capabilities.supports_top_p (has_value d.defaults.generation.top_p) "top_p"
    ++ after_top_p d

abbrev after_budget : ModelDefinition → List String
after_budget d =
    unsupported d.capabilities.supports_temperature (has_value d.defaults.generation.temperature)
      "temperature"
    ++ after_temperature d

abbrev after_effort : ModelDefinition → List String
after_effort d =
    unsupported d.capabilities.supports_reasoning_budget (has_value d.defaults.reasoning.budget)
      "reasoning budget"
    ++ after_budget d

abbrev after_mode : ModelDefinition → List String
after_mode d =
    unsupported d.capabilities.supports_reasoning_effort
      (not (is_inherit d.defaults.reasoning.effort)) "reasoning effort"
    ++ after_effort d

Agrees-conflicts : (d : ModelDefinition) → conflicts d ≡ [] → Agrees d.capabilities d.defaults
unfolding conflicts
Agrees-conflicts d h =
    let a =
      (unsupported-nil d.capabilities.supports_reasoning (not (is_auto d.defaults.reasoning.mode))
          "reasoning mode" (after_mode d)).0
        h in
    let b =
      (unsupported-nil d.capabilities.supports_reasoning_effort
          (not (is_inherit d.defaults.reasoning.effort)) "reasoning effort" (after_effort d)).0
        a.1 in
    let c =
      (unsupported-nil d.capabilities.supports_reasoning_budget
          (has_value d.defaults.reasoning.budget) "reasoning budget" (after_budget d)).0
        b.1 in
    let e =
      (unsupported-nil d.capabilities.supports_temperature
          (has_value d.defaults.generation.temperature) "temperature" (after_temperature d)).0
        c.1 in
    let f =
      (unsupported-nil d.capabilities.supports_top_p (has_value d.defaults.generation.top_p) "top_p"
          (after_top_p d)).0
        e.1 in
    (
      a.0,
      b.0,
      c.0,
      e.0,
      f.0,
      (last-nil d.capabilities.supports_max_output_tokens
            (has_value d.defaults.generation.max_output_tokens) "max_output_tokens").0
          f.1,
    )

conflicts-Agrees : (d : ModelDefinition) → Agrees d.capabilities d.defaults → conflicts d ≡ []
unfolding conflicts
conflicts-Agrees d h =
    let g =
      (last-nil d.capabilities.supports_max_output_tokens
          (has_value d.defaults.generation.max_output_tokens) "max_output_tokens").1
        h.5 in
    let f =
      (unsupported-nil d.capabilities.supports_top_p (has_value d.defaults.generation.top_p) "top_p"
          (after_top_p d)).1
        (h.4, g) in
    let e =
      (unsupported-nil d.capabilities.supports_temperature
          (has_value d.defaults.generation.temperature) "temperature" (after_temperature d)).1
        (h.3, f) in
    let c =
      (unsupported-nil d.capabilities.supports_reasoning_budget
          (has_value d.defaults.reasoning.budget) "reasoning budget" (after_budget d)).1
        (h.2, e) in
    let b =
      (unsupported-nil d.capabilities.supports_reasoning_effort
          (not (is_inherit d.defaults.reasoning.effort)) "reasoning effort" (after_effort d)).1
        (h.1, c) in
    (unsupported-nil d.capabilities.supports_reasoning (not (is_auto d.defaults.reasoning.mode))
        "reasoning mode" (after_mode d)).1
      (h.0, b)

reset_model-Agrees :
    (d d' : ModelDefinition) (scope : String)
    → Agrees d.capabilities d.defaults
    → scope ≢ "capabilities"
    → reset_model d scope ≡ ok d'
    → Agrees d'.capabilities d'.defaults
unfolding reset_model
reset_model-Agrees d d' scope a s h = ground arith

-- A reset of a model to its defaults in any scope but that of the capabilities keeps the agreement of the
-- defaults with the capabilities.
conflicts-reset_model :
    (d d' : ModelDefinition) (scope : String)
    → conflicts d ≡ []
    → scope ≢ "capabilities"
    → reset_model d scope ≡ ok d'
    → conflicts d' ≡ []
conflicts-reset_model d d' scope c s h =
    let before = Agrees-conflicts d c in
    conflicts-Agrees d' (reset_model-Agrees d d' scope before s h)

is_auto-true : (m : ReasoningMode) → is_auto m ≡ true → m ≡ mode_auto
is_auto-true m h = ground arith

is_inherit-true : (e : Effort) → is_inherit e ≡ true → e ≡ inherit
is_inherit-true e h = ground arith

has_value-false : {A : Type 0} (v : Option A) → has_value v ≡ false → v ≡ none
has_value-false none h = refl
has_value-false (some a) h = cc

reasoning_eq :
    (r : ReasoningConfig)
    → r.mode ≡ mode_auto
    → r.effort ≡ inherit
    → r.budget ≡ none
    → r ≡ default_reasoning
reasoning_eq r m e b = cc

generation_eq :
    (g : GenerationConfig)
    → g.temperature ≡ none
    → g.top_p ≡ none
    → g.max_output_tokens ≡ none
    → g ≡ default_generation
generation_eq g t p m = cc

accepted : (d : ModelDefinition) → (parameters_match_capabilities d ≡ ok tt) ↔ (conflicts d ≡ [])
unfolding parameters_match_capabilities
accepted d = elim (List-cases (conflicts d)) [
  | inl e ↦ ground (arith, e)
  | inr (c, cs, e) ↦ ground (arith, e)
]

bare_conflicts :
    (d : ModelDefinition)
    → (conflicts (record d { capabilities = no_capabilities }) ≡ [])
      ↔ ((d.defaults.reasoning ≡ default_reasoning) × (d.defaults.generation ≡ default_generation))
bare_conflicts d =
    let bare : ModelDefinition = record d { capabilities = no_capabilities } in
    let r = d.defaults.reasoning in
    let g = d.defaults.generation in
    (
      λ h.
          let a = Agrees-conflicts bare h in
          (
            reasoning_eq r (is_auto-true r.mode (ground (arith, a.0)))
                (is_inherit-true r.effort (ground (arith, a.1))) (has_value-false r.budget a.2),
            generation_eq g (has_value-false g.temperature a.3) (has_value-false g.top_p a.4)
                (has_value-false g.max_output_tokens a.5),
          ),
      λ h. conflicts-Agrees bare (ground (arith, h)),
    )

-- A reset of the scope "capabilities" comes through with a definition without capabilities, and
-- `parameters_match_capabilities` accepts it exactly if the settings of reasoning and generation are the default ones.
pub reset_model_capabilities :
    (d : ModelDefinition)
    → (d' : ModelDefinition) × (reset_model d "capabilities" ≡ ok d')
      × (d'.capabilities ≡ no_capabilities)
      × ((parameters_match_capabilities d' ≡ ok tt) ↔ (
          (d.defaults.reasoning ≡ default_reasoning)
          × (d.defaults.generation ≡ default_generation)))
unfolding reset_model string_eq
reset_model_capabilities d =
    let bare : ModelDefinition = record d { capabilities = no_capabilities } in
    let (to, from) = accepted bare in
    let (only, back) = bare_conflicts d in
    (bare, refl, refl, (λ h. only (to h), λ h. from (back h)))
