-- ===== src/Settings/Schemas.antt =====
-- The models of backend/maintainer/schemas.py that make up the settings of the main agent, the agents
-- and the model providers, with their defaults. Numbers that a field must keep positive are natural.
use maintune.Base.{ℕ, String, Bool, false, Option, none, List, nat_eq}
use maintune.Json.{Fields, end, Number}

pub data ReasoningMode : Type 0 where
  mode_auto mode_on mode_off : ReasoningMode

pub data Effort : Type 0 where
  inherit low medium high extra_high : Effort

pub data Budget : Type 0 where
  tokens : ℕ → Budget
  budget_auto budget_unset : Budget

pub record ModelRef : Type 0 where
  pub provider : String
  pub model : String

pub record ModelCapabilities : Type 0 where
  pub supports_reasoning : Bool
  pub supports_reasoning_effort : Bool
  pub supports_reasoning_budget : Bool
  pub supports_temperature : Bool
  pub supports_top_p : Bool
  pub supports_max_output_tokens : Bool

abbrev pub no_capabilities : ModelCapabilities
no_capabilities = record {
  supports_reasoning = false;
  supports_reasoning_effort = false;
  supports_reasoning_budget = false;
  supports_temperature = false;
  supports_top_p = false;
  supports_max_output_tokens = false;
}

pub record ReasoningConfig : Type 0 where
  pub mode : ReasoningMode
  pub effort : Effort
  pub budget : Option Budget

abbrev pub default_reasoning : ReasoningConfig
default_reasoning = record { mode = mode_auto; effort = inherit; budget = none }

pub record ReasoningOverride : Type 0 where
  pub mode : Option ReasoningMode
  pub effort : Option Effort
  pub budget : Option Budget

abbrev pub no_reasoning_override : ReasoningOverride
no_reasoning_override = record { mode = none; effort = none; budget = none }

pub record GenerationConfig : Type 0 where
  pub temperature : Option Number
  pub top_p : Option Number
  pub max_output_tokens : Option ℕ

abbrev pub default_generation : GenerationConfig
default_generation = record { temperature = none; top_p = none; max_output_tokens = none }

pub record ModelDefaults : Type 0 where
  pub reasoning : ReasoningConfig
  pub generation : GenerationConfig
  pub request_timeout : Option ℕ
  pub extra_params : Fields

abbrev pub model_defaults : ModelDefaults
model_defaults = record {
  reasoning = default_reasoning;
  generation = default_generation;
  request_timeout = none;
  extra_params = end;
}

pub record ModelDefinition : Type 0 where
  pub id : String
  pub display_name : Option String
  pub enabled : Bool
  pub capabilities : ModelCapabilities
  pub defaults : ModelDefaults

pub data ProviderType : Type 0 where
  openai_compatible plugin : ProviderType

pub record ProviderInput : Type 0 where
  pub name : String
  pub type : ProviderType
  pub base_url : String
  pub plugin_provider : Option String
  pub models : List ModelDefinition

pub data StepsMode : Type 0 where
  steps_auto steps_fixed : StepsMode

pub record StepConfig : Type 0 where
  pub mode : StepsMode
  pub fixed_steps : Option ℕ
  pub soft_limit : Option ℕ
  pub hard_limit : Option ℕ
  pub extension : ℕ
  pub loop_threshold : ℕ

abbrev pub default_steps : StepConfig
default_steps = record {
  mode = steps_auto;
  fixed_steps = none;
  soft_limit = none;
  hard_limit = none;
  extension = 20;
  loop_threshold = 3;
}

-- `TimeoutConfig` and `TimeoutOverride`, which have the same fields.
pub record Timeouts : Type 0 where
  pub model_request : Option ℕ
  pub tool_call : Option ℕ
  pub agent_task : Option ℕ
  pub sandbox_ttl : Option ℕ

abbrev pub no_timeouts : Timeouts
no_timeouts = record {
  model_request = none;
  tool_call = none;
  agent_task = none;
  sandbox_ttl = none;
}

pub record AgentRuntimeOverride : Type 0 where
  pub reasoning : ReasoningOverride
  pub generation : GenerationConfig
  pub steps : Option StepConfig
  pub timeouts : Timeouts

abbrev pub no_runtime_override : AgentRuntimeOverride
no_runtime_override = record {
  reasoning = no_reasoning_override;
  generation = default_generation;
  steps = none;
  timeouts = no_timeouts;
}

pub record AgentInput : Type 0 where
  pub name : String
  pub identifier : String
  pub enabled : Bool
  pub description : String
  pub system_prompt : String
  pub model : Option ModelRef
  pub runtime : AgentRuntimeOverride

pub record GeneralSettings : Type 0 where
  pub model : Option ModelRef
  pub system_prompt : String
  pub reasoning : ReasoningOverride
  pub generation : GenerationConfig
  pub steps : StepConfig
  pub timeouts : Timeouts
