-- ===== src/PluginApi/Tests.antt =====
-- Runs of the plugin API, and its theorems at concrete data.
use maintune.Base.{
  ℕ, ◌≡◌, ◌↔◌, refl, String, true, false, none, some, List, [], ◌∷◌, string_eq, nat_eq, bool_eq,
}
use maintune.Base.Int.{pos, int_eq}
use maintune.Base.Result.{Result, ok, err}
use maintune.Base.Unicode.{ascii}
use maintune.Json.{Value, null, bool, int, str, list, dict, nil, cons, Fields, end, field, get}
use maintune.Json.Equality.{eq_value}
use maintune.PluginApi.Schema.{
  validate_schema, check_head, kind_of, check_kind, check_enum, check_object, check_tail,
  check_bounds, check_number, check_array, check_required,
}
use maintune.PluginApi.Value
use maintune.PluginApi.Value.{
  Place, root, validate_value, schema_fields, type_of, check_self, has_kind, in_enum, check_members,
  check_names, required_of, is_closed, properties_of, count_fits, in_range,
}
use maintune.PluginApi.Value.Conforms.{Conforms}
use maintune.PluginApi.Value.Conforms.Correct.{validate_value-ok_iff}
use maintune.PluginApi.Config
use maintune.PluginApi.Config.{validate_config_schema, check_secret}
use maintune.PluginApi.Config.Secrets.{top, property, secrets_at_top}
use maintune.PluginApi.Registration.{
  ExtensionRegistration, parse_registration, check_metadata, check_service,
}
use maintune.PluginApi.Registry.{
  PluginRegistry, empty_registry, put_entry, staged_item, register_plugin, unregister_plugin,
  list_kind, get_registration, only_one,
}
use maintune.PluginApi.Registry.Contents.{
  IsValid, register_plugin-IsValid, unregister_plugin-register_plugin,
}
use maintune.PluginApi.Hooks.{
  HookDispatch, Outcome, returned, DispatchError, dispatched, call_all, entries_of,
}
use maintune.PluginApi.Invoke.{prepare_tool}
use maintune.PluginApi.Hooks.Catalog.{
  object_any, task_started, pr_review, hook_catalog, find_hook, dispatch_spec, dispatch_hook,
}

abbrev age_schema : Value
age_schema = dict (field "type" (str "integer") (field "minimum" (int (pos 1)) end))

validate_value-ok_iff_example : (validate_value age_schema (int (pos 3)) (root "input") ≡ ok tt) ↔ (
    (validate_schema age_schema false ≡ ok tt) × Conforms (schema_fields age_schema) (int (pos 3)))
validate_value-ok_iff_example = validate_value-ok_iff age_schema (int (pos 3)) (root "input")

abbrev key_schema : Fields
key_schema = field "type" (str "string") (field "secret" (bool true) end)

abbrev config_properties : Fields
config_properties = field "api_key" (dict key_schema) end

abbrev config_fields : Fields
config_fields = field "type" (str "object") (field "properties" (dict config_properties) end)

config_accepted : validate_config_schema (dict config_fields) ≡ ok tt
unfolding validate_config_schema validate_schema string_eq nat_eq check_head kind_of check_kind
    check_enum check_object check_tail check_bounds check_number Config.check_node check_secret
config_accepted = refl

secrets_at_top_example :
    ◌≡◌ {A = ℕ} 1 1
    × (type_of key_schema ≡ "string")
    × (get "default" key_schema ≡ none)
    × (get "enum" key_schema ≡ none)
unfolding string_eq
secrets_at_top_example =
    secrets_at_top (dict config_fields) 1 key_schema config_accepted
      (property config_fields config_properties "api_key" top refl refl refl refl) refl

-- A plugin with one service.
abbrev service : Value
service = list (cons (dict (field "kind" (str "service") (field "name" (str "notes") end))) nil)

abbrev registration : ExtensionRegistration
registration = record (staged_item "p" "service" "notes" end) { load_order = 1 }

abbrev registered : PluginRegistry
registered = record { entries = registration ∷ []; next_order = 1 }

is_registered :
    register_plugin ascii [] "p" service empty_registry ≡ ok (registered, registration ∷ [])
unfolding register_plugin parse_registration check_metadata check_service put_entry string_eq nat_eq
is_registered = refl

empty-IsValid : IsValid ascii [] empty_registry
empty-IsValid = record { ordered = record { below = tt; orders = tt; keys = tt }; checked = tt }

register_plugin-IsValid_example : IsValid ascii [] registered
register_plugin-IsValid_example =
    register_plugin-IsValid ascii [] "p" service empty_registry registered (registration ∷ [])
      empty-IsValid is_registered

unregister_plugin-register_plugin_example :
    (unregister_plugin "p" registered).entries ≡ (unregister_plugin "p" empty_registry).entries
unregister_plugin-register_plugin_example =
    unregister_plugin-register_plugin ascii [] "p" service empty_registry registered
      (registration ∷ []) is_registered

abbrev two_items : List ExtensionRegistration
two_items = staged_item "p" "tool" "a" end ∷ staged_item "q" "hook" "b" end ∷ []

-- A hook registration, and plugins that answer nothing.
abbrev invoker : ExtensionRegistration → Value → String → ℕ → Outcome
invoker item payload id n = returned none

abbrev prompt : Value
prompt =
    dict (
      field "task_id" (str "t")
        (field "repository" (str "o/r") (field "prompt" (str "fix it") end)))

abbrev pull : Value
pull = dict (field "head_sha" (str "abc") end)

abbrev hooked : PluginRegistry
hooked = record {
  entries = (record (staged_item "p" "hook" "issue.analysis_prompt" end) { load_order = 1 }) ∷ [];
  next_order = 1;
}

abbrev result_or : Result DispatchError HookDispatch → HookDispatch
result_or (ok d) = d
result_or (err e) = dispatched "error" null null []

abbrev ids : ℕ → String
ids n = "id"

pull_accepted : validate_value object_any pull (root "input") ≡ ok tt
unfolding validate_value validate_schema string_eq nat_eq int_eq eq_value Value.check_node
    check_head kind_of check_kind check_enum check_object check_tail check_bounds check_number
    check_array check_required check_self has_kind in_enum check_members check_names required_of
    is_closed properties_of count_fits in_range
pull_accepted = refl

review_hook : find_hook "pr.review" hook_catalog ≡ some pr_review
unfolding find_hook string_eq
review_hook = refl

abbrev prompted : HookDispatch
prompted = result_or (dispatch_hook invoker ids "issue.analysis_prompt" prompt hooked)

abbrev reviewed : HookDispatch
reviewed = result_or (dispatch_hook invoker ids "pr.review" pull hooked)

abbrev started : HookDispatch
started = dispatched "continue" pull pull []

is_started : dispatch_spec invoker ids task_started pull empty_registry ≡ ok started
unfolding dispatch_spec call_all entries_of list_kind validate_value validate_schema string_eq
    nat_eq int_eq eq_value Value.check_node check_head kind_of check_kind check_enum check_object
    check_tail check_bounds check_number check_array check_required check_self has_kind in_enum
    check_members check_names required_of is_closed properties_of count_fits in_range
is_started = refl

-- A tool with an input schema.
abbrev tool : ExtensionRegistration
tool = record (staged_item "p" "tool" "add" (field "input_schema" object_any end)) {
  load_order = 1;
}

abbrev tools : PluginRegistry
tools = record { entries = tool ∷ []; next_order = 1 }

tool_prepared : prepare_tool "p/add" pull (some 600) tools ≡ ok (tool, 120)
unfolding prepare_tool get_registration only_one validate_value validate_schema string_eq nat_eq
    int_eq eq_value Value.check_node check_head kind_of check_kind check_enum check_object
    check_tail check_bounds check_number check_array check_required check_self has_kind in_enum
    check_members check_names required_of is_closed properties_of count_fits in_range
tool_prepared = refl
