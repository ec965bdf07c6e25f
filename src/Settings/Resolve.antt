-- ===== src/Settings/Resolve.antt =====
-- backend/maintainer/config.py: what an agent runs with, from the defaults of its model, the settings of
-- the main agent and its own. The rows that the database holds are the validated models.
use maintune.Base.{
  ℕ, String, ◌&&◌, Option, none, some, List, [], ◌∷◌, if◌then◌else◌, ◌==◌, string_eq, nat_eq,
}
use maintune.Base.Dict.{Dict, lookup}
use maintune.Base.Result.{Result, ok, err, ◌>>=◌}
use maintune.Json.{Fields, Number}
use maintune.Settings.Schemas.{
  ReasoningMode, Effort, inherit, Budget, budget_unset, ModelRef, ModelCapabilities,
  ReasoningConfig, ReasoningOverride, GenerationConfig, ModelDefaults, ModelDefinition,
  ProviderType, ProviderInput, StepsMode, steps_auto, steps_fixed, StepConfig, Timeouts, AgentInput,
  GeneralSettings,
}

pub record ResolvedAgentConfig : Type 0 where
  pub agent : String
  pub provider : String
  pub provider_name : String
  pub provider_type : ProviderType
  pub base_url : String
  pub model : String
  pub model_display_name : String
  pub system_prompt : String
  pub capabilities : ModelCapabilities
  pub reasoning_mode : ReasoningMode
  pub reasoning_effort : Effort
  pub reasoning_budget : Option Budget
  pub temperature : Option Number
  pub top_p : Option Number
  pub max_output_tokens : Option ℕ
  pub extra_params : Fields
  pub steps_mode : StepsMode
  pub soft_step_limit : ℕ
  pub hard_step_limit : ℕ
  pub step_extension : ℕ
  pub loop_threshold : ℕ
  pub model_timeout : ℕ
  pub tool_timeout : ℕ
  pub task_timeout : ℕ
  pub sandbox_ttl : ℕ

-- The tables that the resolution reads.
pub record SettingsDb : Type 0 where
  pub general : GeneralSettings
  pub agents : Dict AgentInput
  pub providers : Dict ProviderInput

-- `AUTO_STEP_LIMITS.get(agent_id, AUTO_STEP_LIMITS["main"])`
unfoldable pub auto_step_limits : String → ℕ × ℕ
auto_step_limits id =
    if id == "issue_analyzer"
    then (20, 40)
    else if id == "ci_analyzer"
    then (30, 60)
    else if id == "pr_reviewer"
    then (50, 100)
    else if id == "code_reviewer"
    then (50, 100)
    else if id == "code_worker"
    then (100, 200)
    else (60, 120)

abbrev pub over {ℓ} : {A : Type ℓ} → A → Option A → A
over base none = base
over base (some v) = v

abbrev pub over? {ℓ} : {A : Type ℓ} → Option A → Option A → Option A
over? base none = base
over? base (some v) = some v

-- An effort of "inherit" overrides nothing.
abbrev pub over_effort : Effort → Option Effort → Effort
over_effort base none = base
over_effort base (some inherit) = base
over_effort base (some e) = e

-- `_overlay(reasoning, override)`
unfoldable pub overlay_reasoning : ReasoningConfig → ReasoningOverride → ReasoningConfig
overlay_reasoning base o = record {
  mode = over base.mode o.mode;
  effort = over_effort base.effort o.effort;
  budget = over? base.budget o.budget;
}

-- `_overlay(generation, override)`
unfoldable pub overlay_generation : GenerationConfig → GenerationConfig → GenerationConfig
overlay_generation base o = record {
  temperature = over? base.temperature o.temperature;
  top_p = over? base.top_p o.top_p;
  max_output_tokens = over? base.max_output_tokens o.max_output_tokens;
}

-- `_model`
unfoldable pub find_model : List ModelDefinition → String → Result String ModelDefinition
find_model [] id = err "Referenced model is unavailable"
find_model (d ∷ ds) id =
    let rest = find_model ds id in if d.id == id && d.enabled then ok d else rest

abbrev pub or_default : Option ℕ → ℕ → ℕ
or_default none d = d
or_default (some n) d = if n == 0 then d else n

-- The limits of the steps.
unfoldable pub step_limits : String → StepConfig → ℕ × ℕ
step_limits id s = elim s.mode [
  | steps_auto ↦ (
    or_default s.soft_limit (auto_step_limits id).0,
    or_default s.hard_limit (auto_step_limits id).1,
  )
  | steps_fixed ↦
      let soft = or_default s.soft_limit (or_default s.fixed_steps 1) in
      (soft, or_default s.hard_limit (or_default s.fixed_steps soft))
]

abbrev unset : Option Budget → Option Budget
unset (some budget_unset) = none
unset b = b

-- The layers of the agent, if there is one, over those of the main agent.
abbrev agent_timeout : (Timeouts → Option ℕ) → Option AgentInput → ℕ → ℕ
agent_timeout f none n = n
agent_timeout f (some a) n = or_default (f a.runtime.timeouts) n

unfoldable pub reasoning_for : ModelDefaults → GeneralSettings → Option AgentInput → ReasoningConfig
reasoning_for defaults general agent =
    let main = overlay_reasoning defaults.reasoning general.reasoning in
    let layered : ReasoningConfig = elim agent [
      | none ↦ main
      | some a ↦ overlay_reasoning main a.runtime.reasoning
    ] in
    record layered { budget = unset layered.budget }

unfoldable pub generation_for :
    ModelDefaults → GeneralSettings → Option AgentInput → GenerationConfig
generation_for defaults general agent =
    let main = overlay_generation defaults.generation general.generation in
    elim agent [ none ↦ main | some a ↦ overlay_generation main a.runtime.generation ]

abbrev pub steps_for : GeneralSettings → Option AgentInput → StepConfig
steps_for general none = general.steps
steps_for general (some a) = over general.steps a.runtime.steps

-- The agent, if it is not the main one.
unfoldable pub agent_of : SettingsDb → String → Result String (Option AgentInput)
agent_of db id = if id == "main" then ok none else elim (lookup id db.agents) [
  | none ↦ err "Agent is unavailable"
  | some a ↦ if a.enabled then ok (some a) else err "Agent is unavailable"
]

abbrev ref_for : ModelRef → Option AgentInput → ModelRef
ref_for ref none = ref
ref_for ref (some a) = over ref a.model

abbrev prompt_for : GeneralSettings → Option AgentInput → String
prompt_for general none = general.system_prompt
prompt_for general (some a) = a.system_prompt

abbrev display_of : ModelDefinition → String
display_of d = elim d.display_name [ none ↦ d.id | some n ↦ if n == "" then d.id else n ]

-- The configuration, once the model is found.
unfoldable pub resolved :
    String
    → GeneralSettings
    → Option AgentInput
    → String
    → String
    → ProviderInput
    → ModelDefinition
    → ResolvedAgentConfig
resolved id general agent system provider_id provider d =
    let reasoning = reasoning_for d.defaults general agent in
    let generation = generation_for d.defaults general agent in
    let steps = steps_for general agent in
    let limits = step_limits id steps in
    let main = general.timeouts in
    record {
      agent = id;
      provider = provider_id;
      provider_name = provider.name;
      provider_type = provider.type;
      base_url = provider.base_url;
      model = d.id;
      model_display_name = display_of d;
      system_prompt = system;
      capabilities = d.capabilities;
      reasoning_mode = reasoning.mode;
      reasoning_effort = reasoning.effort;
      reasoning_budget = reasoning.budget;
      temperature = generation.temperature;
      top_p = generation.top_p;
      max_output_tokens = generation.max_output_tokens;
      extra_params = d.defaults.extra_params;
      steps_mode = steps.mode;
      soft_step_limit = limits.0;
      hard_step_limit = limits.1;
      step_extension = steps.extension;
      loop_threshold = steps.loop_threshold;
      model_timeout =
          agent_timeout (λ t. t.model_request) agent
            (or_default main.model_request (or_default d.defaults.request_timeout 300));
      tool_timeout = agent_timeout (λ t. t.tool_call) agent (or_default main.tool_call 600);
      task_timeout = agent_timeout (λ t. t.agent_task) agent (or_default main.agent_task 1800);
      sandbox_ttl = agent_timeout (λ t. t.sandbox_ttl) agent (or_default main.sandbox_ttl 3600);
    }

unfoldable pub resolve_agent_config : SettingsDb → String → Result String ResolvedAgentConfig
resolve_agent_config db id = do
  main ← elim db.general.model [ none ↦ err "Main model is not configured" | some r ↦ ok r ]
  agent ← agent_of db id
  let ref = ref_for main agent
  provider ← elim (lookup ref.provider db.providers) [
    | none ↦ err "Referenced provider is unavailable"
    | some p ↦ ok p
  ]
  definition ← find_model provider.models ref.model
  ok (resolved id db.general agent (prompt_for db.general agent) ref.provider provider definition)

-- An agent that does not resolve is left out.
resolve_each : SettingsDb → List String → Dict ResolvedAgentConfig
resolve_each db [] = []
resolve_each db (id ∷ ids) =
    let rest = resolve_each db ids in
    elim (resolve_agent_config db id) [ err e ↦ rest | ok c ↦ (id, c) ∷ rest ]

-- `resolve_all_agents`, of the identifiers of the agents in their order.
unfoldable pub resolve_all_agents : SettingsDb → List String → Dict ResolvedAgentConfig
unfolding resolve_each
resolve_all_agents db ids = resolve_each db ("main" ∷ ids)
