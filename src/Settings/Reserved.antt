-- ===== src/Settings/Reserved.antt =====
-- Which names a model request may carry, whatever the extra parameters of the model are.
use maintune.Base.{
  ◌≡◌, refl, ◌∙◌, String, true, false, Option, none, some, List, arith, if◌then◌else◌, ◌==◌,
  string_eq, contains,
}
use maintune.Json.{Value, Fields, end, field, get, put, without}
use maintune.Settings.Resolve.{ResolvedAgentConfig}
use maintune.Settings.Parameters.{
  reserved_names, put?, only_if, count_value, number_value, budget_value, effort_value, mode_value,
  openai_compatible_parameters,
}

get-put :
    (j k : String) (v : Value) (fs : Fields)
    → get j (put k v fs) ≡ (if j == k then some v else get j fs)
get-put j k v end = refl
get-put j k v (field i w fs) = ground (arith, get-put j k v fs)

get-without :
    (j : String) (ks : List String) (fs : Fields)
    → contains ks j ≡ true
    → get j (without ks fs) ≡ none
get-without j ks end c = refl
get-without j ks (field i w fs) c = ground (arith, get-without j ks fs c)

own-put? : (j : String) (v : Option Value) (fs : Fields) → get j fs ≡ none → get j (put? j v fs) ≡ v
own-put? j none fs h = h
own-put? j (some v) fs h = ground (arith, get-put j j v fs)

other-put? :
    (j k : String) (v : Option Value) (fs : Fields)
    → j == k ≡ false
    → get j (put? k v fs) ≡ get j fs
other-put? j k none fs n = refl
other-put? j k (some v) fs n = ground (arith, get-put j k v fs)

-- The parameters below each of the standard ones, in the order that they are set in.
module _ (c : ResolvedAgentConfig) where
  abbrev extra : Fields
  extra = without reserved_names c.extra_params

  abbrev q_reasoning : Fields
  q_reasoning =
      put? "reasoning" (only_if c.capabilities.supports_reasoning (mode_value c.reasoning_mode))
        extra

  abbrev q_effort : Fields
  q_effort =
      put? "reasoning_effort"
        (only_if c.capabilities.supports_reasoning_effort (effort_value c.reasoning_effort))
        q_reasoning

  abbrev q_budget : Fields
  q_budget =
      put? "reasoning_budget"
        (only_if c.capabilities.supports_reasoning_budget (budget_value c.reasoning_budget))
        q_effort

  abbrev q_temperature : Fields
  q_temperature =
      put? "temperature" (only_if c.capabilities.supports_temperature (number_value c.temperature))
        q_budget

  abbrev q_top_p : Fields
  q_top_p =
      put? "top_p" (only_if c.capabilities.supports_top_p (number_value c.top_p)) q_temperature

  abbrev q_tokens : Fields
  q_tokens =
      put? "max_tokens"
        (only_if c.capabilities.supports_max_output_tokens (count_value c.max_output_tokens))
        q_top_p

  -- A reserved name that is none of the standard parameters is absent.
  absent :
      (j : String)
      → contains reserved_names j ≡ true
      → j == "reasoning" ≡ false
      → j == "reasoning_effort" ≡ false
      → j == "reasoning_budget" ≡ false
      → j == "temperature" ≡ false
      → j == "top_p" ≡ false
      → j == "max_tokens" ≡ false
      → get j (openai_compatible_parameters c) ≡ none
  unfolding openai_compatible_parameters
  absent j r a b d e f g =
      other-put? j "max_tokens"
        (only_if c.capabilities.supports_max_output_tokens (count_value c.max_output_tokens))
        q_top_p g
      ∙ (other-put? j "top_p" (only_if c.capabilities.supports_top_p (number_value c.top_p))
            q_temperature f
          ∙ (other-put? j "temperature"
                (only_if c.capabilities.supports_temperature (number_value c.temperature)) q_budget
                e
              ∙ (other-put? j "reasoning_budget"
                    (only_if c.capabilities.supports_reasoning_budget
                      (budget_value c.reasoning_budget))
                    q_effort d
                  ∙ (other-put? j "reasoning_effort"
                        (only_if c.capabilities.supports_reasoning_effort
                          (effort_value c.reasoning_effort))
                        q_reasoning b
                      ∙ (other-put? j "reasoning"
                            (only_if c.capabilities.supports_reasoning
                              (mode_value c.reasoning_mode))
                            extra a
                          ∙ get-without j reserved_names c.extra_params r)))))

  -- The extra parameters of a model never set the model, the messages, the timeout or the output limit
  -- under its other name.
  parameters_reserved :
      (get "model" (openai_compatible_parameters c) ≡ none)
      × (get "messages" (openai_compatible_parameters c) ≡ none)
      × (get "timeout" (openai_compatible_parameters c) ≡ none)
      × (get "max_output_tokens" (openai_compatible_parameters c) ≡ none)
  unfolding string_eq
  parameters_reserved = (
    absent "model" refl refl refl refl refl refl refl,
    absent "messages" refl refl refl refl refl refl refl,
    absent "timeout" refl refl refl refl refl refl refl,
    absent "max_output_tokens" refl refl refl refl refl refl refl,
  )

  -- A standard parameter is in the request exactly as configured if the capabilities of the model support it,
  -- and is absent otherwise, whatever the extra parameters of the model are.
  parameters_standard :
      (get "reasoning" (openai_compatible_parameters c)
        ≡ only_if c.capabilities.supports_reasoning (mode_value c.reasoning_mode))
      × (get "reasoning_effort" (openai_compatible_parameters c)
          ≡ only_if c.capabilities.supports_reasoning_effort (effort_value c.reasoning_effort))
      × (get "reasoning_budget" (openai_compatible_parameters c)
          ≡ only_if c.capabilities.supports_reasoning_budget (budget_value c.reasoning_budget))
      × (get "temperature" (openai_compatible_parameters c)
          ≡ only_if c.capabilities.supports_temperature (number_value c.temperature))
      × (get "top_p" (openai_compatible_parameters c)
          ≡ only_if c.capabilities.supports_top_p (number_value c.top_p))
      × (get "max_tokens" (openai_compatible_parameters c)
          ≡ only_if c.capabilities.supports_max_output_tokens (count_value c.max_output_tokens))
  unfolding openai_compatible_parameters string_eq
  parameters_standard = (
    other-put? "reasoning" "max_tokens"
          (only_if c.capabilities.supports_max_output_tokens (count_value c.max_output_tokens))
          q_top_p refl
        ∙ (other-put? "reasoning" "top_p"
              (only_if c.capabilities.supports_top_p (number_value c.top_p)) q_temperature refl
            ∙ (other-put? "reasoning" "temperature"
                  (only_if c.capabilities.supports_temperature (number_value c.temperature))
                  q_budget refl
                ∙ (other-put? "reasoning" "reasoning_budget"
                      (only_if c.capabilities.supports_reasoning_budget
                        (budget_value c.reasoning_budget))
                      q_effort refl
                    ∙ (other-put? "reasoning" "reasoning_effort"
                          (only_if c.capabilities.supports_reasoning_effort
                            (effort_value c.reasoning_effort))
                          q_reasoning refl
                        ∙ (own-put? "reasoning"
                            (only_if c.capabilities.supports_reasoning
                              (mode_value c.reasoning_mode))
                            extra (get-without "reasoning" reserved_names c.extra_params refl)))))),
    other-put? "reasoning_effort" "max_tokens"
          (only_if c.capabilities.supports_max_output_tokens (count_value c.max_output_tokens))
          q_top_p refl
        ∙ (other-put? "reasoning_effort" "top_p"
              (only_if c.capabilities.supports_top_p (number_value c.top_p)) q_temperature refl
            ∙ (other-put? "reasoning_effort" "temperature"
                  (only_if c.capabilities.supports_temperature (number_value c.temperature))
                  q_budget refl
                ∙ (other-put? "reasoning_effort" "reasoning_budget"
                      (only_if c.capabilities.supports_reasoning_budget
                        (budget_value c.reasoning_budget))
                      q_effort refl
                    ∙ (own-put? "reasoning_effort"
                        (only_if c.capabilities.supports_reasoning_effort
                          (effort_value c.reasoning_effort))
                        q_reasoning
                        (other-put? "reasoning_effort" "reasoning"
                            (only_if c.capabilities.supports_reasoning
                              (mode_value c.reasoning_mode))
                            extra refl
                          ∙ (get-without "reasoning_effort" reserved_names c.extra_params
                              refl)))))),
    other-put? "reasoning_budget" "max_tokens"
          (only_if c.capabilities.supports_max_output_tokens (count_value c.max_output_tokens))
          q_top_p refl
        ∙ (other-put? "reasoning_budget" "top_p"
              (only_if c.capabilities.supports_top_p (number_value c.top_p)) q_temperature refl
            ∙ (other-put? "reasoning_budget" "temperature"
                  (only_if c.capabilities.supports_temperature (number_value c.temperature))
                  q_budget refl
                ∙ (own-put? "reasoning_budget"
                    (only_if c.capabilities.supports_reasoning_budget
                      (budget_value c.reasoning_budget))
                    q_effort
                    (other-put? "reasoning_budget" "reasoning_effort"
                        (only_if c.capabilities.supports_reasoning_effort
                          (effort_value c.reasoning_effort))
                        q_reasoning refl
                      ∙ (other-put? "reasoning_budget" "reasoning"
                            (only_if c.capabilities.supports_reasoning
                              (mode_value c.reasoning_mode))
                            extra refl
                          ∙ (get-without "reasoning_budget" reserved_names c.extra_params
                              refl)))))),
    other-put? "temperature" "max_tokens"
          (only_if c.capabilities.supports_max_output_tokens (count_value c.max_output_tokens))
          q_top_p refl
        ∙ (other-put? "temperature" "top_p"
              (only_if c.capabilities.supports_top_p (number_value c.top_p)) q_temperature refl
            ∙ (own-put? "temperature"
                (only_if c.capabilities.supports_temperature (number_value c.temperature)) q_budget
                (other-put? "temperature" "reasoning_budget"
                    (only_if c.capabilities.supports_reasoning_budget
                      (budget_value c.reasoning_budget))
                    q_effort refl
                  ∙ (other-put? "temperature" "reasoning_effort"
                        (only_if c.capabilities.supports_reasoning_effort
                          (effort_value c.reasoning_effort))
                        q_reasoning refl
                      ∙ (other-put? "temperature" "reasoning"
                            (only_if c.capabilities.supports_reasoning
                              (mode_value c.reasoning_mode))
                            extra refl
                          ∙ (get-without "temperature" reserved_names c.extra_params refl)))))),
    other-put? "top_p" "max_tokens"
          (only_if c.capabilities.supports_max_output_tokens (count_value c.max_output_tokens))
          q_top_p refl
        ∙ (own-put? "top_p" (only_if c.capabilities.supports_top_p (number_value c.top_p))
            q_temperature
            (other-put? "top_p" "temperature"
                (only_if c.capabilities.supports_temperature (number_value c.temperature)) q_budget
                refl
              ∙ (other-put? "top_p" "reasoning_budget"
                    (only_if c.capabilities.supports_reasoning_budget
                      (budget_value c.reasoning_budget))
                    q_effort refl
                  ∙ (other-put? "top_p" "reasoning_effort"
                        (only_if c.capabilities.supports_reasoning_effort
                          (effort_value c.reasoning_effort))
                        q_reasoning refl
                      ∙ (other-put? "top_p" "reasoning"
                            (only_if c.capabilities.supports_reasoning
                              (mode_value c.reasoning_mode))
                            extra refl
                          ∙ (get-without "top_p" reserved_names c.extra_params refl)))))),
    own-put? "max_tokens"
        (only_if c.capabilities.supports_max_output_tokens (count_value c.max_output_tokens))
        q_top_p
        (other-put? "max_tokens" "top_p"
            (only_if c.capabilities.supports_top_p (number_value c.top_p)) q_temperature refl
          ∙ (other-put? "max_tokens" "temperature"
                (only_if c.capabilities.supports_temperature (number_value c.temperature)) q_budget
                refl
              ∙ (other-put? "max_tokens" "reasoning_budget"
                    (only_if c.capabilities.supports_reasoning_budget
                      (budget_value c.reasoning_budget))
                    q_effort refl
                  ∙ (other-put? "max_tokens" "reasoning_effort"
                        (only_if c.capabilities.supports_reasoning_effort
                          (effort_value c.reasoning_effort))
                        q_reasoning refl
                      ∙ (other-put? "max_tokens" "reasoning"
                            (only_if c.capabilities.supports_reasoning
                              (mode_value c.reasoning_mode))
                            extra refl
                          ∙ (get-without "max_tokens" reserved_names c.extra_params refl)))))),
  )
