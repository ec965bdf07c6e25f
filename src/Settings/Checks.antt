-- ===== src/Settings/Checks.antt =====
-- The validators of backend/maintainer/schemas.py.
use maintune.Base.{
  ℕ, String, ◌<>◌, Bool, true, false, not, ◌&&◌, ◌||◌, Option, none, some, List, [], ◌∷◌, ◌++◌, ltb,
  leb, map, is_unique, if◌then◌else◌, ◌==◌, string_eq, nat_eq, any,
}
use maintune.Base.Text.{Text, codes, replace_char}
use maintune.Base.Unicode.{Unicode, lower}
use maintune.Base.Result.{Result, ok, err, ◌>>◌, raise_if}
use maintune.Json.{Value, list, dict, Items, nil, cons, Fields, end, field}
use maintune.Settings.Schemas.{
  ReasoningMode, mode_auto, Effort, inherit, Budget, tokens, ModelDefinition, ProviderInput,
  openai_compatible, plugin, StepConfig, StepsMode, steps_auto, steps_fixed,
}

abbrev pub Validated : Type 0
Validated = Result String (Unit {0})

-- `valid_budget`, of both models of a budget.
unfoldable pub valid_budget : Option Budget → Validated
valid_budget (some (tokens n)) =
    raise_if (not (leb 1 n && leb n 2000000)) "Reasoning budget must be a positive integer"
valid_budget b = ok tt

-- `SECRET_PARAMETER_NAMES`
abbrev pub secret_parameter_names : List Text
secret_parameter_names = map codes (
    "api_key" ∷ "apikey" ∷ "authorization" ∷ "token" ∷ "access_token" ∷ "password" ∷ "secret"
    ∷ "client_secret" ∷ [])

abbrev eq_text : Text → Text → Bool
eq_text [] [] = true
eq_text (c ∷ s) (d ∷ t) = c == d && eq_text s t
eq_text s t = false

abbrev pub has_value : {A : Type 0} → Option A → Bool
has_value none = false
has_value (some a) = true

abbrev pub is_inherit : Effort → Bool
is_inherit inherit = true
is_inherit e = false

abbrev pub is_auto : ReasoningMode → Bool
is_auto mode_auto = true
is_auto m = false

-- A default that is set, of a feature that the model may not have.
abbrev pub unsupported : Bool → Bool → String → List String
unsupported supported set what = if not supported && set then what ∷ [] else []

-- The defaults that the capabilities of a model do not support.
unfoldable pub conflicts : ModelDefinition → List String
conflicts d =
    let c = d.capabilities in
    let r = d.defaults.reasoning in
    let g = d.defaults.generation in
    unsupported c.supports_reasoning (not (is_auto r.mode)) "reasoning mode"
    ++ (unsupported c.supports_reasoning_effort (not (is_inherit r.effort)) "reasoning effort"
        ++ (unsupported c.supports_reasoning_budget (has_value r.budget) "reasoning budget"
            ++ (unsupported c.supports_temperature (has_value g.temperature) "temperature"
                ++ (unsupported c.supports_top_p (has_value g.top_p) "top_p"
                    ++ unsupported c.supports_max_output_tokens (has_value g.max_output_tokens)
                        "max_output_tokens"))))

-- `parameters_match_capabilities`, whose message joins the conflicts.
unfoldable pub parameters_match_capabilities : ModelDefinition → Result (List String) (Unit {0})
parameters_match_capabilities d = elim (conflicts d) [ [] ↦ ok tt | c ∷ cs ↦ err (c ∷ cs) ]

abbrev given : Option String → Bool
given none = false
given (some s) = not (s == "")

-- `valid_provider_type`
unfoldable pub valid_provider_type : ProviderInput → Validated
valid_provider_type p = elim p.type [
  | openai_compatible ↦
      raise_if (p.base_url == "" || given p.plugin_provider)
        "OpenAI-compatible providers require a Base URL and no plugin identifier"
  | plugin ↦
      raise_if (not (p.base_url == "") || not (given p.plugin_provider))
        "Plugin providers require a plugin identifier and no Base URL"
]

-- `valid_models`
unfoldable pub valid_models : List ModelDefinition → Validated
valid_models values =
    raise_if (not (is_unique (map (λ (d : ModelDefinition). d.id) values))) "Duplicate model ID"

-- `a or b` of two counts that may be `None`.
abbrev pub or_count : Option ℕ → Option ℕ → Option ℕ
or_count none b = b
or_count (some n) b = if n == 0 then b else some n

abbrev exceeds : Option ℕ → Option ℕ → Bool
exceeds (some soft) (some hard) = leb 1 soft && leb 1 hard && ltb hard soft
exceeds soft hard = false

abbrev is_fixed : StepsMode → Bool
is_fixed steps_fixed = true
is_fixed steps_auto = false

-- `valid_limits`
unfoldable pub valid_limits : StepConfig → Validated
valid_limits s = do
  raise_if (is_fixed s.mode && not (has_value s.fixed_steps))
      "Fixed steps mode requires fixed_steps"
  raise_if (exceeds (or_count s.soft_limit s.fixed_steps) (or_count s.hard_limit s.fixed_steps))
      "soft_limit must not exceed hard_limit"

abbrev between : ℕ → ℕ → Option ℕ → Bool
between least most none = true
between least most (some n) = leb least n && leb n most

-- The ranges of the fields, and `valid_limits`.
unfoldable pub valid_steps : StepConfig → Validated
valid_steps s = do
  raise_if
      (not (
        between 1 2000 s.fixed_steps
        && between 1 2000 s.soft_limit
        && between 1 4000 s.hard_limit
        && between 1 200 (some s.extension)
        && between 2 20 (some s.loop_threshold)))
      "Input should be in range"
  valid_limits s

module _ (u : Unicode) where
  abbrev is_secret_name : String → Bool
  is_secret_name key =
      any (eq_text (replace_char 45 95 (lower u (codes key)))) secret_parameter_names

  -- `validate_extra_parameters`: the names of secrets are refused at every depth.
  unfoldable mutual
    pub walk : Value → Validated
    walk (dict fs) = walk_fields fs
    walk (list xs) = walk_items xs
    walk v = ok tt

    pub walk_items : Items → Validated
    walk_items nil = ok tt
    walk_items (cons x xs) = walk x >> walk_items xs

    pub walk_fields : Fields → Validated
    walk_fields end = ok tt
    walk_fields (field key nested fs) =
        raise_if (is_secret_name key)
          ("Secret field " <> key <> " is not allowed in extra parameters")
        >> walk nested
        >> walk_fields fs
