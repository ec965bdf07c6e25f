-- ===== src/Settings/Parameters.antt =====
-- `openai_compatible_parameters` of backend/maintainer/providers.py, and the payload of `complete`.
use maintune.Base.{
  ℕ, String, Bool, true, false, Option, none, some, List, [], ◌∷◌, if◌then◌else◌, string_eq,
}
use maintune.Base.Int.{pos}
use maintune.Json.{
  Value, bool, int, float, str, list, dict, nil, cons, Fields, end, field, put, without, Number,
}
use maintune.Settings.Schemas.{
  ReasoningMode, mode_auto, mode_on, mode_off, Effort, inherit, low, medium, high, extra_high,
  Budget, tokens, budget_auto, budget_unset,
}
use maintune.Settings.Resolve.{ResolvedAgentConfig}

abbrev pub reserved_names : List String
reserved_names =
    "model" ∷ "messages" ∷ "reasoning" ∷ "reasoning_effort" ∷ "reasoning_budget" ∷ "temperature"
    ∷ "top_p" ∷ "max_tokens" ∷ "max_output_tokens" ∷ "timeout" ∷ []

abbrev pub put? : String → Option Value → Fields → Fields
put? k none fs = fs
put? k (some v) fs = put k v fs

abbrev pub only_if : Bool → Option Value → Option Value
only_if b v = if b then v else none

abbrev enabled : Bool → Value
enabled b = dict (field "enabled" (bool b) end)

abbrev pub mode_value : ReasoningMode → Option Value
mode_value mode_auto = none
mode_value mode_on = some (enabled true)
mode_value mode_off = some (enabled false)

abbrev pub effort_value : Effort → Option Value
effort_value inherit = none
effort_value low = some (str "low")
effort_value medium = some (str "medium")
effort_value high = some (str "high")
effort_value extra_high = some (str "xhigh")

abbrev pub budget_value : Option Budget → Option Value
budget_value none = none
budget_value (some (tokens n)) = some (int (pos n))
budget_value (some budget_auto) = some (str "auto")
budget_value (some budget_unset) = some (str "unset")

abbrev pub number_value : Option Number → Option Value
number_value none = none
number_value (some n) = some (float n.mantissa n.shift)

abbrev pub count_value : Option ℕ → Option Value
count_value none = none
count_value (some n) = some (int (pos n))

-- A standard parameter is set only for a model that supports it, and replaces an extra one.
unfoldable pub openai_compatible_parameters : ResolvedAgentConfig → Fields
openai_compatible_parameters c =
    let s = c.capabilities in
    put? "max_tokens" (only_if s.supports_max_output_tokens (count_value c.max_output_tokens)) (
      put? "top_p" (only_if s.supports_top_p (number_value c.top_p)) (
        put? "temperature" (only_if s.supports_temperature (number_value c.temperature)) (
          put? "reasoning_budget"
            (only_if s.supports_reasoning_budget (budget_value c.reasoning_budget))
            (put? "reasoning_effort"
              (only_if s.supports_reasoning_effort (effort_value c.reasoning_effort))
              (put? "reasoning" (only_if s.supports_reasoning (mode_value c.reasoning_mode))
                (without reserved_names c.extra_params))))))

abbrev message : String → String → Value
message role content = dict (field "role" (str role) (field "content" (str content) end))

-- The payload of `complete`: the model and the messages replace parameters of those names.
unfoldable pub request_payload : String → String → String → Fields → Fields
request_payload model system prompt parameters =
    put "messages" (list (cons (message "system" system) (cons (message "user" prompt) nil)))
      (put "model" (str model) parameters)
