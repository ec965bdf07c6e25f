-- ===== src/Manager/Reviews.antt =====
-- `PluginManager._resume_review` of backend/maintainer/plugin_manager.py: a plugin that asked to wait hands in
-- the review of a pull request.
pub mod Once
use maintune.Base.{
  String, Bool, true, false, not, ◌&&◌, ◌||◌, Option, none, some, List, [], ◌∷◌, if◌then◌else◌,
  ◌==◌, string_eq,
}
use maintune.Base.Result.{Result, ok, err, ◌>>=◌, ◌>>◌, raise_if}
use maintune.Json.{
  value_or_null, fields_of, Value, null, str, dict, Fields, end, field, get, put, truthy?,
}
use maintune.Json.Equality.{eq_value}
use maintune.Store.{Db, Task, Env, get_task, set_task, add_event, to_text}
use maintune.PluginApi.Value.{root, validate_value}
use maintune.PluginApi.Hooks.Catalog.{review_output}

-- `str(params.get(key, ""))`
abbrev pub param : Env → String → Fields → String
param env key params = elim (get key params) [ none ↦ "" | some v ↦ to_text env v ]

-- `task.data.get("plugin_waiting") or {}`, of rows that hold a dict there.
abbrev pub waiting_for : Task → Fields
waiting_for task = fields_of (value_or_null (get "plugin_waiting" task.content))

-- `waiting.get(key) != text`, negated
abbrev pub says : String → String → Fields → Bool
says key text waiting = eq_value (value_or_null (get key waiting)) (str text)

-- `result["head_sha"]`, which the schema requires.
abbrev pub head_of : Value → Value
head_of result = value_or_null (get "head_sha" (fields_of result))

abbrev pub is_valid_review : Value → Bool
is_valid_review result =
    elim (validate_value review_output
      (dict (field "action" (str "replace") (field "result" result end))) (root "review")) [
        | ok u ↦ true
        | err e ↦ false
      ]

abbrev pub resumed_event : String → String → Value → Fields
resumed_event plugin_id invocation_id result =
    field "plugin_id" (str plugin_id)
      (field "invocation_id" (str invocation_id) (field "head_sha" (head_of result) end))

abbrev pub resumed_task : Value → Task → Task
resumed_task result t = record t {
  status = "queued";
  content = put "plugin_review_result" result t.content;
}

-- The checks of the task that is waiting.
unfoldable pub check_waiting : String → String → Value → Task → Result String (Unit {0})
check_waiting plugin_id invocation_id result task = do
  raise_if (not (task.status == "waiting_for_plugin")) "Task is not waiting for a plugin review"
  let waiting = waiting_for task
  raise_if (not (says "plugin_id" plugin_id waiting && says "invocation_id" invocation_id waiting))
      "Plugin review invocation does not match"
  raise_if (not (eq_value (head_of result) (value_or_null (get "head_sha" waiting))))
      "Plugin review is for a stale PR head"
  raise_if (truthy? (get "plugin_review_result" task.content))
      "Plugin review result has already been submitted"

-- The session of a review that is valid.
unfoldable pub resume_session : Env → String → String → String → Value → Db → Result String Db
resume_session env plugin_id task_id invocation_id result db = elim (get_task task_id db) [
  | none ↦ err "Task is not waiting for a plugin review"
  | some task ↦
      check_waiting plugin_id invocation_id result task
      >> ok (
          add_event env task_id "plugin_review_resumed"
            (resumed_event plugin_id invocation_id result)
            (set_task task_id (resumed_task result) db))
]

-- `_resume_review`
unfoldable pub resume_review : Env → String → Fields → Db → Result String Db
resume_review env plugin_id params db = do
  let result = value_or_null (get "result" params)
  raise_if (not (is_valid_review result)) "Plugin review is invalid"
  resume_session env plugin_id (param env "task_id" params) (param env "invocation_id" params)
      result db
