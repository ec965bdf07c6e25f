-- ===== src/Tasks.antt =====
-- The statuses of a task: `TaskProcessor.change_status` and the frame of `TaskProcessor.process` of
-- backend/maintainer/tasks.py, with the retries and the restart of backend/maintainer/api.py.
pub mod Restart
pub mod Exclusion
pub mod Tests
use maintune.Base.{
  ℕ, zero, suc, ◌+◌, ◌-◌, String, Bool, true, false, not, ◌&&◌, ◌||◌, Option, none, some, List, [],
  ◌∷◌, any, if◌then◌else◌, ◌==◌, string_eq, nat_eq, contains,
}
use maintune.Base.Int.{pos}
use maintune.Base.Result.{Result, ok, err, ◌>>=◌, ◌>>◌, raise_if}
use maintune.Base.Text.{codes, starts_with}
use maintune.Json.{
  Value, null, int, str, dict, Fields, end, field, get, put, update, without, truthy?,
}
use maintune.Json.Equality.{eq_value?}
use maintune.Store.{
  Db, Task, Outbox, Env, Timeline, get_task, set_task, add_event, find_first, update_where, or_else,
  to_text,
}
use maintune.Recovery.Remote.{fields_of, get_or_null}
use maintune.Recovery.Snapshot.{is_stopped, is_unsettled}

abbrev drop_chars : ℕ → String → String
drop_chars zero s = s
drop_chars (suc n) String.[] = ""
drop_chars (suc n) (String.◌∷◌ c s) = drop_chars n s

abbrev take_chars : ℕ → String → String
take_chars zero s = ""
take_chars (suc n) String.[] = ""
take_chars (suc n) (String.◌∷◌ c s) = String.◌∷◌ c (take_chars n s)

abbrev pub is_failed : String → Bool
is_failed status = starts_with (codes status) (codes "failed_")

-- `reused_review_completion`
unfoldable pub reused_review_completion : Task → String → Option Value → Bool
reused_review_completion task status head_sha =
    let reuse : Fields = fields_of (get "review_reused_from" task.content) in
    task.kind == "pull_request"
    && contains ("reviewed" ∷ "waiting_for_contributor" ∷ []) status
    && eq_value? (get "head_sha" reuse) (or_else head_sha (get "head_sha" task.content))
    && eq_value? (get "attempt" reuse) (some (int (pos task.attempts)))

abbrev message_of : Env → Fields → String
message_of env content =
    let found = or_else (get "error" content) (get "summary" content) in
    if truthy? found
    then elim found [ none ↦ "" | some v ↦ take_chars 2000 (to_text env v) ]
    else "Task failed"

abbrev or_text : Option Value → String → Value
or_text none s = str s
or_text (some v) s = v

abbrev failure_of : Env → Task → String → Fields → Fields
failure_of env task status content =
    field "stage" (or_text (get "failure_stage" content) (drop_chars 7 status)) (
      field "exception_type" (or_text (get "exception_type" content) "TaskFailure") (
        field "message" (str (message_of env content)) (
          field "attempt" (int (pos task.attempts))
            (field "retry" (int (pos (task.attempts - 1))) end))))

-- The data that the new status comes with.
abbrev status_content : Env → Task → String → Fields → Fields
status_content env task status content =
    if is_failed status
    then put "failure" (dict (failure_of env task status content))
        (without ("failure_stage" ∷ "exception_type" ∷ []) content)
    else content

-- The plugin event of a status, of a task of a kind.
unfoldable pub plugin_event : String → String → Option String
plugin_event kind status =
    if kind == "pull_request" && status == "waiting_for_contributor"
    then some "pr.changes_requested"
    else if kind == "pull_request" && status == "reviewed"
    then some "pr.reviewed"
    else if is_failed status
    then some "task.failed"
    else if status == "waiting_for_owner"
    then some "task.waiting_for_owner"
    else if status == "completed"
    then some "task.completed"
    else if status == "merged"
    then some "pr.merged"
    else if status == "pr_created"
    then some "pr.created"
    else none

abbrev event_if : Env → Bool → String → String → Fields → Db → Db
event_if env b task_id kind content db = if b then add_event env task_id kind content db else db

abbrev skipped : Fields → Fields
skipped content =
    field "action_id" (get_or_null "action_id" (fields_of (get "review_reused_from" content)))
      (field "head_sha" (get_or_null "head_sha" content) end)

-- `change_status`: the store, and the plugin event that is emitted.
unfoldable pub change_status :
    Env → String → String → Fields → Db → Result String (Db × Option String)
change_status env task_id status content db = elim (get_task task_id db) [
  | none ↦ err "AttributeError"
  | some task ↦
      let reused = reused_review_completion task status (get "head_sha" content) in
      let more : Fields = status_content env task status content in
      let after : Fields = update task.content more in
      let failed : Db =
        event_if env (is_failed status) task_id "task_failed" (failure_of env task status content)
          db in
      let changed : Db =
        set_task task_id (λ t. record t { status = status; lease_until = none; content = after })
          failed in
      let told : Db =
        add_event env task_id "status_changed" (field "status" (str status) end) changed in
      ok (
        event_if env reused task_id "review_completion_side_effects_skipped" (skipped after) told,
        if reused then none else plugin_event task.kind status,
      )
]

-- The session that `process` begins with; nothing is done for a task that is not queued.
unfoldable pub begin_task : Env → Value → String → Db → Option Db
begin_task env lease task_id db = elim (get_task task_id db) [
  | none ↦ none
  | some task ↦
      if task.status == "queued"
      then some (
          add_event env task_id "task_started" (field "attempt" (int (pos (task.attempts + 1))) end)
            (set_task task_id
              (λ t. record t {
                status = "running";
                attempts = t.attempts + 1;
                lease_until = some lease;
              })
              db))
      else none
]

-- The status that an exception at a stage leaves.
unfoldable pub failure_status : String → String
failure_status stage =
    if contains
      ("issue_analyzer" ∷ "ci_analyzer" ∷ "pr_reviewer" ∷ "code_worker" ∷ "code_reviewer" ∷ [])
      stage
    then "failed_agent"
    else "failed_environment"

-- `retry_task`
unfoldable pub retry_task : Env → String → Db → Result String Db
retry_task env task_id db = elim (get_task task_id db) [
  | none ↦ err "404"
  | some task ↦
      raise_if (not (is_stopped task)) "Only failed or safely interrupted tasks can be retried"
      >> raise_if (any (is_unsettled task_id) db.outbox) "Task has an unresolved external action"
      >> ok (
          add_event env task_id "task_retried"
            (field "next_attempt" (int (pos (task.attempts + 1))) end)
            (set_task task_id
              (λ t. record t {
                status = "queued";
                lease_until = none;
                content = without ("error" ∷ "failure" ∷ []) t.content;
              })
              db))
]

abbrev deferred : List String
deferred =
    "bot_skipped" ∷ "bot_merge_deferred" ∷ "waiting_for_owner" ∷ "waiting_for_contributor" ∷ []

-- `recheck_task`
unfoldable pub recheck_task : Env → String → Db → Result String Db
recheck_task env task_id db = elim (get_task task_id db) [
  | none ↦ err "404"
  | some task ↦
      raise_if (not (task.kind == "pull_request" && contains deferred task.status))
        "Only deferred pull request tasks can be rechecked"
      >> raise_if (any (is_unsettled task_id) db.outbox) "Task has an unresolved external action"
      >> ok (
          add_event env task_id "task_rechecked"
            (field "next_attempt" (int (pos (task.attempts + 1))) end)
            (set_task task_id (λ t. record t { status = "queued"; lease_until = none }) db))
]

-- The rows of the outbox after the service restarts.
abbrev pub is_under_way : Outbox → Bool
is_under_way r = contains ("executing" ∷ "reconciling" ∷ []) r.status

abbrev pub unknown_again : Outbox → Outbox
unknown_again r = record r {
  status = "unknown";
  error = some "Service restarted while external action was executing; reconciliation required";
}

abbrev interrupted : Task → Task
interrupted t = record t {
  status = "interrupted";
  lease_until = none;
  content =
      put "error" (str "Service restarted during processing; no external action was replayed")
        t.content;
}

abbrev is_running : Task → Bool
is_running t = t.status == "running"

add_interruptions : Env → List Task → Db → Db
add_interruptions env [] db = db
add_interruptions env (t ∷ ts) db =
    let rest : Db =
      add_event env t.id "interrupted" (field "reason" (str "service_restart") end) db in
    add_interruptions env ts (if is_running t then rest else db)

-- The session of `lifespan`, without the runs that it interrupts.
unfoldable pub restart : Env → Db → Db
unfolding add_interruptions
restart env db =
    let told : Db = add_interruptions env db.tasks db in
    record told {
      tasks = (update_where is_running interrupted db.tasks).0;
      outbox = (update_where is_under_way unknown_again db.outbox).0;
    }
