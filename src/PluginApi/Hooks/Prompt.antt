-- ===== src/PluginApi/Hooks/Prompt.antt =====
-- The prompt that the core goes on with after `issue.analysis_prompt`.
use maintune.Base.{Bool, [], ◌∷◌, nat_eq}
use maintune.Json.{Value, get}
use maintune.PluginApi.Value.{schema_fields, in_enum}
use maintune.PluginApi.Value.Conforms.{Conforms}
use maintune.PluginApi.Hooks.Catalog.{enum_schema}

abbrev action_schema : Value
action_schema = enum_schema ("continue" ∷ "modify" ∷ "cancel" ∷ [])

abbrev in_actions : Value → Bool
in_actions v = in_enum (get "enum" (schema_fields action_schema)) v
