-- ===== src/Manager/GithubCalls.antt =====
-- `PluginManager._github_call` of backend/maintainer/plugin_manager.py: what a plugin may read of GitHub and
-- write to it through the controller. What GitHub answers is a parameter, as in Actions.antt.
pub mod Approval
use maintune.Base.{
  ℕ, String, ◌<>◌, Bool, true, false, not, ◌&&◌, ◌||◌, Option, none, some, List, [], ◌∷◌, ltb,
  length, if◌then◌else◌, ◌==◌, string_eq, contains,
}
use maintune.Base.Result.{Result, ok, err, ◌>>=◌, ◌>>◌, raise_if}
use maintune.Base.Text.{Text, codes}
use maintune.Base.Unicode.{Unicode, strip}
use maintune.Json.{Value, null, str, dict, Fields, end, field, get, put, truthy?}
use maintune.Store.{
  Db, Task, Env, ActionError, get_task, get_repository, add_event, to_text, or_else,
  installation_of,
}
use maintune.Recovery.Remote.{Remote}
use maintune.Actions.{github_action}
use maintune.Broker.{is_replay_key}
use maintune.Packages.{is_empty}
use maintune.Manager.Reviews.{param}
use maintune.Json.{value_or_null}

pub data CallError : Type 0 where
  plugin_error : String → CallError
  action_error : ActionError → CallError
  raised : String → CallError

abbrev pub Called : Type 0 → Type 0
Called A = Result CallError A

abbrev pub fail_if : Bool → String → Called (Unit {0})
fail_if b message = raise_if b (plugin_error message)

abbrev pub github_methods : List String
github_methods =
    "github.issue.get" ∷ "github.pull.get" ∷ "github.comment" ∷ "github.privileged.comment" ∷ []

-- What the first session reads.
pub record Target : Type 0 where
  pub task : Task
  pub installation : Value

abbrev pub installation_for : Task → Db → Option Value
installation_for task db =
    or_else (get "installation_id" task.content)
      (installation_of (get_repository task.repository db))

abbrev pub installed : Task → Option Value → Called Target
installed task v =
    if truthy? v
    then ok (record { task = task; installation = value_or_null v })
    else err (plugin_error "Repository installation is unavailable")

unfoldable pub find_target : String → Db → Called Target
find_target task_id db = elim (get_task task_id db) [
  | none ↦ err (plugin_error "Task is unavailable")
  | some task ↦ installed task (installation_for task db)
]

-- `task.data.get("owner_decision_action") == "implement"`
abbrev pub is_approved : Task → Bool
is_approved task = elim (get "owner_decision_action" task.content) [
  | none ↦ false
  | some v ↦ elim v [ str s ↦ s == "implement" | _ ↦ false ]
]

abbrev pub is_active : Task → Bool
is_active task = contains ("queued" ∷ "running" ∷ []) task.status

module _ (u : Unicode) where
  abbrev pub checked_body : Option Value → Called String
  checked_body (some (str body)) =
      fail_if (is_empty (strip u (codes body)) || ltb 8000 (length (codes body)))
        "GitHub comment body is invalid"
      >> ok body
  checked_body v = err (plugin_error "GitHub comment body is invalid")

  -- The checks of a comment: its body and its invocation id.
  unfoldable pub check_comment : Env → String → Fields → Task → Called (String × String)
  check_comment env method params task = do
    body ← checked_body (get "body" params)
    let invocation_id = param env "invocation_id" params
    fail_if (not (is_replay_key invocation_id)) "GitHub write requires a stable invocation_id"
    fail_if
        (not (method == "github.privileged.comment") && not (is_approved task && is_active task))
        "GitHub write requires an active, owner-approved Task"
    ok (body, invocation_id)

  module _ (env : Env) (sha256 : String → String) (plugin_id method : String) where
    abbrev pub audit_of : String → String → Fields
    audit_of invocation_id body = field "plugin_id" (str plugin_id) (
        field "method" (str method)
          (field "invocation_id" (str invocation_id) (field "body_sha256" (str (sha256 body)) end)))

    abbrev pub action_key : String → String → String
    action_key task_id invocation_id =
        "plugin-comment:" <> plugin_id <> ":" <> task_id <> ":" <> invocation_id

    abbrev pub action_kind : String
    action_kind =
        if method == "github.privileged.comment"
        then "plugin_comment_privileged"
        else "plugin_comment"

    abbrev pub id_of : Fields → Value
    id_of result = elim (get "id" result) [
      | none ↦ str ""
      | some v ↦ if truthy? (some v) then str (to_text env v) else str ""
    ]

    -- What follows the action: the event of its success.
    abbrev pub settle : String → Fields → Db × Result ActionError Fields → Db × Called Fields
    settle task_id audit (after, err e) = (after, err (action_error e))
    settle task_id audit (after, ok result) =
        let url = value_or_null (get "html_url" result) in
        (
          add_event env task_id "plugin_github_write_completed" (put "url" url audit) after,
          ok (field "id" (id_of result) (field "html_url" url end)),
        )

    -- The event of the request, and the action through the outbox.
    unfoldable pub comment :
        Remote
        → (Db → Db)
        → (Db → Db × Result String Fields)
        → String
        → String
        → String
        → Db
        → Db × Called Fields
    comment remote others perform task_id body invocation_id db =
        let audit = audit_of invocation_id body in
        settle task_id audit (
          github_action env remote others perform task_id action_kind
            (action_key task_id invocation_id) audit
            (add_event env task_id "plugin_github_write_requested" audit db))

    -- `_github_call`; `issue_context` and `pull_context` are the two reads of GitHub.
    module _ (has_controller : Bool)
        (issue_context pull_context : Value → Task → Called Fields) where
      abbrev pub read_issue : Target → Called Fields
      read_issue t =
          fail_if (not (t.task.kind == "issue")) "Task is not an Issue"
          >> issue_context t.installation t.task

      abbrev pub read_pull : Target → Called Fields
      read_pull t =
          fail_if (not (t.task.kind == "pull_request")) "Task is not a Pull Request"
          >> pull_context t.installation t.task

      -- What is decided before anything is written: an answer, or a comment with its invocation id.
      pub data Plan : Type 0 where
        answers : Called Fields → Plan
        writes : String → String → Plan

      abbrev pub plan_for : Fields → Target → Plan
      plan_for params t =
          if method == "github.issue.get"
          then answers (read_issue t)
          else if method == "github.pull.get"
          then answers (read_pull t)
          else elim (check_comment env method params t.task) [
            | err e ↦ answers (err e)
            | ok pair ↦ writes pair.0 pair.1
          ]

      unfoldable pub plan : Fields → Db → Plan
      plan params db =
          if not (contains github_methods method)
          then answers (err (plugin_error "GitHub Core Client method is not available"))
          else if not has_controller
          then answers (err (plugin_error "GitHub Controller is unavailable"))
          else elim (find_target (param env "task_id" params) db) [
            | err e ↦ answers (err e)
            | ok t ↦ plan_for params t
          ]

      unfoldable pub github_call :
          Remote → (Db → Db) → (Db → Db × Result String Fields) → Fields → Db → Db × Called Fields
      github_call remote others perform params db = elim (plan params db) [
        | answers r ↦ (db, r)
        | writes body invocation_id ↦
            comment remote others perform (param env "task_id" params) body invocation_id db
      ]
