-- ===== src/PluginApi/Hooks/Catalog.antt =====
-- The schemas and the hook catalog `HOOKS` of backend/maintainer/plugin_api_v2.py, and
-- `dispatch_hook` over it.
use maintune.Base.{
  ℕ, String, Bool, true, false, ◌&&◌, Option, none, some, List, [], ◌∷◌, if◌then◌else◌, ◌==◌,
  string_eq, nat_eq,
}
use maintune.Base.Int.{pos}
use maintune.Base.Result.{Result, ok, err}
use maintune.Json.{Value, bool, int, str, list, dict, Items, nil, cons, Fields, end, field}
use maintune.PluginApi.Value.{root, validate_value}
use maintune.PluginApi.Registration.{ExtensionRegistration}
use maintune.PluginApi.Registry.{PluginRegistry}
use maintune.PluginApi.Hooks.{
  Behavior, notification, pipeline, replaceable, open_failure, HookSpec, HookDispatch, Outcome,
  DispatchError, unknown_hook, invalid_payload, dispatched, call_all, dispatch_loop, entries_of,
}

abbrev texts : List String → Items
texts [] = nil
texts (s ∷ ss) = cons (str s) (texts ss)

abbrev fields : List (String × Value) → Fields
fields [] = end
fields ((k, v) ∷ rest) = field k v (fields rest)

abbrev nat : ℕ → Value
nat n = int (pos n)

abbrev text_schema : List (String × Value) → Value
text_schema bounds = dict (field "type" (str "string") (fields bounds))

abbrev pub enum_schema : List String → Value
enum_schema values = text_schema (("enum", list (texts values)) ∷ [])

abbrev object_schema : List (String × Value) → List String → Bool → Value
object_schema properties required additional = dict (
    fields (
      ("type", str "object")
      ∷ ("properties", dict (fields properties))
      ∷ ("required", list (texts required))
      ∷ ("additionalProperties", bool additional)
      ∷ []))

-- `_OBJECT`
abbrev pub object_any : Value
object_any = dict (
    fields (
      ("type", str "object") ∷ ("properties", dict end) ∷ ("additionalProperties", bool true) ∷ []))

-- `_ISSUE_PROMPT`
abbrev pub issue_prompt : Value
issue_prompt =
    object_schema
      (("task_id", text_schema (("minLength", nat 1) ∷ ("maxLength", nat 64) ∷ []))
        ∷ ("repository", text_schema (("minLength", nat 3) ∷ ("maxLength", nat 200) ∷ []))
        ∷ ("prompt", text_schema (("minLength", nat 1) ∷ ("maxLength", nat 100000) ∷ []))
        ∷ [])
      ("task_id" ∷ "repository" ∷ "prompt" ∷ []) false

-- `_PIPELINE_OUTPUT`
abbrev pub pipeline_output : Value
pipeline_output =
    object_schema
      (("action", enum_schema ("continue" ∷ "modify" ∷ "cancel" ∷ []))
        ∷ ("payload", issue_prompt)
        ∷ [])
      ("action" ∷ []) false

-- `_TASK_FINAL`
abbrev pub task_final : Value
task_final =
    object_schema
      (("task_id", text_schema (("minLength", nat 1) ∷ ("maxLength", nat 64) ∷ []))
        ∷ ("status", text_schema (("minLength", nat 1) ∷ ("maxLength", nat 40) ∷ []))
        ∷ ("attempt", dict (fields (("type", str "integer") ∷ ("minimum", nat 1) ∷ [])))
        ∷ ("summary", text_schema (("maxLength", nat 8000) ∷ []))
        ∷ [])
      ("task_id" ∷ "status" ∷ "attempt" ∷ []) true

-- `_REVIEW_VERDICT`
abbrev review_verdict : Value
review_verdict = enum_schema ("approved" ∷ "changes_required" ∷ "owner_decision" ∷ [])

-- `_REVIEW_FINDING`
abbrev review_finding : Value
review_finding =
    object_schema
      (("severity", enum_schema ("blocking" ∷ "suggestion" ∷ []))
        ∷ ("path", text_schema (("maxLength", nat 1000) ∷ []))
        ∷ ("line", dict (fields (("type", str "integer") ∷ ("minimum", nat 1) ∷ [])))
        ∷ ("message", text_schema (("minLength", nat 1) ∷ ("maxLength", nat 8000) ∷ []))
        ∷ ("issue_type", text_schema (("maxLength", nat 100) ∷ []))
        ∷ [])
      ("severity" ∷ "message" ∷ []) false

abbrev findings_schema : Value
findings_schema =
    dict (fields (("type", str "array") ∷ ("items", review_finding) ∷ ("maxItems", nat 50) ∷ []))

-- `_REVIEW_OUTPUT`
abbrev pub review_output : Value
review_output =
    object_schema
      (("action", enum_schema ("continue" ∷ "replace" ∷ "cancel" ∷ "wait" ∷ []))
        ∷ ("reason", text_schema (("maxLength", nat 1000) ∷ []))
        ∷ (
          "result",
          object_schema
              (("head_sha", text_schema (("minLength", nat 7) ∷ ("maxLength", nat 64) ∷ []))
                ∷ ("verdict", review_verdict)
                ∷ ("summary", text_schema (("minLength", nat 1) ∷ ("maxLength", nat 12000) ∷ []))
                ∷ ("risk", enum_schema ("low" ∷ "medium" ∷ "high" ∷ []))
                ∷ ("blocking_issues", findings_schema)
                ∷ ("suggestions", findings_schema)
                ∷ [])
              ("head_sha" ∷ "verdict" ∷ "summary" ∷ "risk" ∷ "blocking_issues" ∷ "suggestions" ∷ [])
              false,
        )
        ∷ [])
      ("action" ∷ []) false

abbrev pub task_started : HookSpec
task_started = record {
  name = "task.started";
  behavior = notification;
  parallel = true;
  failure = open_failure;
  timeout = 2;
  retry_safe = true;
  input_schema = object_any;
  output_schema = none;
}

abbrev pub task_finally : HookSpec
task_finally = record {
  name = "task.finally";
  behavior = notification;
  parallel = false;
  failure = open_failure;
  timeout = 5;
  retry_safe = false;
  input_schema = task_final;
  output_schema = none;
}

abbrev pub issue_analysis_prompt : HookSpec
issue_analysis_prompt = record {
  name = "issue.analysis_prompt";
  behavior = pipeline;
  parallel = false;
  failure = open_failure;
  timeout = 5;
  retry_safe = false;
  input_schema = issue_prompt;
  output_schema = some pipeline_output;
}

abbrev pub pr_review : HookSpec
pr_review = record {
  name = "pr.review";
  behavior = replaceable;
  parallel = false;
  failure = open_failure;
  timeout = 30;
  retry_safe = false;
  input_schema = object_any;
  output_schema = some review_output;
}

-- `HOOKS`
abbrev pub hook_catalog : List HookSpec
hook_catalog = task_started ∷ task_finally ∷ issue_analysis_prompt ∷ pr_review ∷ []

unfoldable pub find_hook : String → List HookSpec → Option HookSpec
find_hook name [] = none
find_hook name (h ∷ hs) = let rest = find_hook name hs in if name == h.name then some h else rest

abbrev pub is_notification : Behavior → Bool
is_notification notification = true
is_notification b = false

module _ (invoker : ExtensionRegistration → Value → String → ℕ → Outcome) (ids : ℕ → String) where
  -- `dispatch_hook` once the hook is found.
  unfoldable pub dispatch_spec :
      HookSpec → Value → PluginRegistry → Result DispatchError HookDispatch
  dispatch_spec spec payload g =
      let entries = entries_of spec.name g in
      elim (validate_value spec.input_schema payload (root "input")) [
        | err e ↦ err invalid_payload
        | ok u ↦
            if spec.parallel && is_notification spec.behavior
            then ok (
                dispatched "continue" payload payload (call_all invoker ids spec payload entries 0))
            else dispatch_loop invoker ids spec payload payload [] entries 0
      ]

  unfoldable pub dispatch_hook : String → Value → PluginRegistry → Result DispatchError HookDispatch
  dispatch_hook name payload g = elim (find_hook name hook_catalog) [
    | none ↦ err unknown_hook
    | some spec ↦ dispatch_spec spec payload g
  ]
