-- ===== src/Settings/Tests.antt =====
-- Runs of the settings, and their theorems at concrete data.
use maintune.Base.{◌≤◌, ◌≡◌, ◌↔◌, ◌⊎◌, refl, true, none, some, [], ◌∷◌, string_eq, nat_eq}
use maintune.Base.Int.{int_eq}
use maintune.Base.Result.{ok}
use maintune.Settings.Schemas.{
  ModelDefinition, model_defaults, no_capabilities, default_reasoning, default_generation,
  default_steps, StepConfig, steps_fixed, mode_on, openai_compatible, GeneralSettings,
  no_reasoning_override, no_timeouts, ProviderInput,
}
use maintune.Settings.Checks.{conflicts, valid_steps, valid_limits}
use maintune.Settings.Resolve.{
  ResolvedAgentConfig, SettingsDb, step_limits, auto_step_limits, resolve_agent_config, agent_of,
  find_model, resolved,
}
use maintune.Settings.Resets.{reset_model}
use maintune.Settings.Steps.{IsHalfSet, step_limits_ordered}
use maintune.Settings.Checks.{parameters_match_capabilities}
use maintune.Settings.Defaults.{reset_model_capabilities}

abbrev fixed : StepConfig
fixed = record default_steps { mode = steps_fixed; fixed_steps = some 30; soft_limit = some 10 }

fixed_accepted : valid_steps fixed ≡ ok tt
unfolding valid_steps valid_limits nat_eq
fixed_accepted = refl

step_limits_ordered_example :
    (1 ≤ (step_limits "main" fixed).0)
    × (((step_limits "main" fixed).0 ≤ (step_limits "main" fixed).1) ⊎ IsHalfSet fixed)
step_limits_ordered_example = step_limits_ordered "main" fixed fixed_accepted

-- A soft limit alone is accepted, and passes the hard limit of the agent.
abbrev half_set : StepConfig
half_set = record default_steps { soft_limit = some 1500 }

half_set_accepted : valid_steps half_set ≡ ok tt
unfolding valid_steps valid_limits nat_eq
half_set_accepted = refl

half_set_limits : step_limits "issue_analyzer" half_set ≡ (1500, 40)
unfolding step_limits auto_step_limits nat_eq string_eq
half_set_limits = refl

abbrev thinker : ModelDefinition
thinker = record {
  id = "m";
  display_name = none;
  enabled = true;
  capabilities = record no_capabilities { supports_reasoning = true };
  defaults = record model_defaults { reasoning = record default_reasoning { mode = mode_on } };
}

thinker_agrees : conflicts thinker ≡ []
unfolding conflicts
thinker_agrees = refl

abbrev calmed : ModelDefinition
calmed = record thinker { defaults = record thinker.defaults { request_timeout = none } }

is_calmed : reset_model thinker "timeouts" ≡ ok calmed
unfolding reset_model string_eq
is_calmed = refl

-- A reset of the capabilities of this model leaves a conflict.
capabilities_conflict :
    conflicts (record thinker { capabilities = no_capabilities }) ≡ "reasoning mode" ∷ []
unfolding conflicts
capabilities_conflict = refl

reset_model_capabilities_example :
    (d' : ModelDefinition) × (reset_model thinker "capabilities" ≡ ok d')
    × (d'.capabilities ≡ no_capabilities)
    × ((parameters_match_capabilities d' ≡ ok tt) ↔ (
        (thinker.defaults.reasoning ≡ default_reasoning)
        × (thinker.defaults.generation ≡ default_generation)))
reset_model_capabilities_example = reset_model_capabilities thinker

abbrev general : GeneralSettings
general = record {
  model = some (record { provider = "p"; model = "m" });
  system_prompt = "help";
  reasoning = no_reasoning_override;
  generation = default_generation;
  steps = default_steps;
  timeouts = no_timeouts;
}

abbrev settings : SettingsDb
settings = record {
  general = general;
  agents = [];
  providers =
      (
        "p",
        record {
          name = "P";
          type = openai_compatible;
          base_url = "https://x";
          plugin_provider = none;
          models = thinker ∷ [];
        },
      )
      ∷ [];
}

abbrev provider : ProviderInput
provider = record {
  name = "P";
  type = openai_compatible;
  base_url = "https://x";
  plugin_provider = none;
  models = thinker ∷ [];
}

abbrev main : ResolvedAgentConfig
main = resolved "main" general none "help" "p" provider thinker

main_resolves : resolve_agent_config settings "main" ≡ ok main
unfolding resolve_agent_config agent_of find_model string_eq
main_resolves = refl
