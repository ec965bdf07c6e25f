-- ===== src/Settings/Resets.antt =====
-- backend/maintainer/resets.py: a part of some settings goes back to its defaults.
use maintune.Base.{String, ◌||◌, none, List, [], ◌∷◌, if◌then◌else◌, ◌==◌, string_eq, contains}
use maintune.Base.Result.{Result, ok, err}
use maintune.Json.{end}
use maintune.Settings.Schemas.{
  ModelDefinition, ModelDefaults, model_defaults, default_reasoning, default_generation,
  no_capabilities, GeneralSettings, no_reasoning_override, default_steps, no_timeouts, AgentInput,
  AgentRuntimeOverride, no_runtime_override,
}

abbrev with_defaults : ModelDefinition → ModelDefaults → ModelDefinition
with_defaults d v = record d { defaults = v }

unfoldable pub reset_model : ModelDefinition → String → Result String ModelDefinition
reset_model d scope =
    let v = d.defaults in
    if scope == "all"
    then ok (with_defaults d model_defaults)
    else if scope == "reasoning"
    then ok (with_defaults d (record v { reasoning = default_reasoning }))
    else if scope == "generation"
    then ok (with_defaults d (record v { generation = default_generation }))
    else if scope == "budget"
    then ok (with_defaults d (record v { reasoning = record v.reasoning { budget = none } }))
    else if scope == "timeouts"
    then ok (with_defaults d (record v { request_timeout = none }))
    else if scope == "extra_params"
    then ok (with_defaults d (record v { extra_params = end }))
    else if scope == "advanced"
    then ok (with_defaults d (record v { request_timeout = none; extra_params = end }))
    else if scope == "capabilities"
    then ok (record d { capabilities = no_capabilities })
    else err "Reset scope is not valid for a model"

abbrev main_scopes : List String
main_scopes = "reasoning" ∷ "generation" ∷ "steps" ∷ "budget" ∷ "timeouts" ∷ "all" ∷ []

unfoldable pub reset_main : GeneralSettings → String → Result String GeneralSettings
reset_main s scope =
    let every = scope == "all" in
    if contains main_scopes scope
    then ok (record s {
      reasoning = if scope == "reasoning" || every then no_reasoning_override else s.reasoning;
      generation = if scope == "generation" || every then default_generation else s.generation;
      steps = if scope == "steps" || (scope == "budget" || every) then default_steps else s.steps;
      timeouts = if scope == "timeouts" || every then no_timeouts else s.timeouts;
    })
    else err "Reset scope is not valid for the main agent"

abbrev with_runtime : AgentInput → AgentRuntimeOverride → AgentInput
with_runtime a r = record a { runtime = r }

unfoldable pub reset_agent : AgentInput → String → Result String AgentInput
reset_agent a scope =
    let r = a.runtime in
    if scope == "all"
    then ok (record a { model = none; runtime = no_runtime_override })
    else if scope == "reasoning"
    then ok (with_runtime a (record r { reasoning = no_reasoning_override }))
    else if scope == "generation"
    then ok (with_runtime a (record r { generation = default_generation }))
    else if scope == "steps" || scope == "budget"
    then ok (with_runtime a (record r { steps = none }))
    else if scope == "timeouts"
    then ok (with_runtime a (record r { timeouts = no_timeouts }))
    else err "Reset scope is not valid for a sub agent"
