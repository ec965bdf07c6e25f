-- ===== src/Manager/Reviews/Once.antt =====
-- When `_resume_review` takes a review that a plugin hands in.
use maintune.Base.{
  ◌≡◌, ◌≢◌, refl, sym, ap, ◌∙◌, String, Bool, true, not, some, arith, if◌then◌else◌, ◌==◌,
  string_eq, Option-cases, inl, inr,
}
use mathlib.Core.Path.{subst}
use text.Mathlib.TextEquality.{eq_iff}
use maintune.Base.Result.{ok, ◌>>◌, >>-eq-ok, ok-injective, raise_if}
use maintune.Json.{Value, Fields, get}
use maintune.Json.Equality.{eq_value}
use maintune.Store.{Db, Task, Env, get_task, set_task, add_event}
use maintune.Actions.Once.{find_first-update_where}
use maintune.Tasks.Exclusion.{find_first-holds}
use maintune.Manager.Reviews.{
  param, waiting_for, says, head_of, is_valid_review, resumed_task, resumed_event, check_waiting,
  resume_session, resume_review,
}
use maintune.Json.{value_or_null}

abbrev has_id : String → Task → Bool
has_id task_id t = t.id == task_id

-- What the checks let through.
pub record IsAwaited (plugin_id invocation_id : String) (result : Value) (task : Task)
    : Type 0 where
  pub waits : task.status ≡ "waiting_for_plugin"
  pub by_plugin : says "plugin_id" plugin_id (waiting_for task) ≡ true
  pub by_invocation : says "invocation_id" invocation_id (waiting_for task) ≡ true
  pub same_head :
      eq_value (head_of result) (value_or_null (get "head_sha" (waiting_for task))) ≡ true

check_waiting-IsAwaited :
    (plugin_id invocation_id : String) (result : Value) (task : Task)
    → check_waiting plugin_id invocation_id result task ≡ ok tt
    → IsAwaited plugin_id invocation_id result task
unfolding check_waiting
check_waiting-IsAwaited plugin_id invocation_id result task h = ground arith

-- The store as the session leaves it.
abbrev resumed : Env → String → String → String → Value → Db → Db
resumed env plugin_id task_id invocation_id result db =
    add_event env task_id "plugin_review_resumed" (resumed_event plugin_id invocation_id result)
      (set_task task_id (resumed_task result) db)

resume_session-ok :
    (env : Env) (plugin_id task_id invocation_id : String) (result : Value) (db db' : Db)
    → resume_session env plugin_id task_id invocation_id result db ≡ ok db'
    → (t : Task) × (get_task task_id db ≡ some t)
      × (check_waiting plugin_id invocation_id result t ≡ ok tt)
      × (resumed env plugin_id task_id invocation_id result db ≡ db')
unfolding resume_session
resume_session-ok env plugin_id task_id invocation_id result db db' h =
    elim (Option-cases (get_task task_id db)) [
      | inl e ↦ ground arith
      | inr (t, e) ↦
          let passed : (check_waiting plugin_id invocation_id result t
                >> ok (resumed env plugin_id task_id invocation_id result db))
              ≡ ok db' =
            rw (e, resume_session) at h in
          let checked = >>-eq-ok (check_waiting plugin_id invocation_id result t) _ passed in
          (t, e, checked.0, ok-injective _ db' checked.1)
    ]

get_task-set_task :
    (task_id : String) (result : Value) (db : Db) (t : Task)
    → get_task task_id db ≡ some t
    → get_task task_id (set_task task_id (resumed_task result) db) ≡ some (resumed_task result t)
get_task-set_task task_id result db t e =
    find_first-update_where (has_id task_id) (has_id task_id) (resumed_task result) (λ x. refl)
      db.tasks t e
    ∙ ap (λ (b : Bool). some (if b then resumed_task result t else t))
        (find_first-holds (has_id task_id) db.tasks t e)

resume_review-session :
    (env : Env) (plugin_id : String) (params : Fields) (db db' : Db)
    → resume_review env plugin_id params db ≡ ok db'
    → resume_session env plugin_id
        (param env "task_id" params)
        (param env "invocation_id" params)
        (value_or_null (get "result" params))
        db
      ≡ ok db'
unfolding resume_review
resume_review-session env plugin_id params db db' h =
    (>>-eq-ok (raise_if (not (is_valid_review (value_or_null (get "result" params)))) _) _ h).1

-- A review is taken only for a task that waits for this plugin, this invocation and the head that was reviewed,
-- and the task is then queued with that review and no external action is touched.
resume_review-IsAwaited :
    (env : Env) (plugin_id : String) (params : Fields) (db db' : Db)
    → resume_review env plugin_id params db ≡ ok db'
    → (t : Task) × (get_task (param env "task_id" params) db ≡ some t)
      × IsAwaited plugin_id
          (param env "invocation_id" params)
          (value_or_null (get "result" params))
          t
      × (get_task (param env "task_id" params) db'
          ≡ some (resumed_task (value_or_null (get "result" params)) t))
      × (db'.outbox ≡ db.outbox)
resume_review-IsAwaited env plugin_id params db db' h =
    let result = value_or_null (get "result" params) in
    let id = param env "task_id" params in
    let invocation = param env "invocation_id" params in
    let (t, e, checked, left) =
      resume_session-ok env plugin_id id invocation result db db'
        (resume_review-session env plugin_id params db db' h) in
    (
      t,
      e,
      check_waiting-IsAwaited plugin_id invocation result t checked,
      subst (λ (d : Db). get_task id d ≡ some (resumed_task result t)) left
          (get_task-set_task id result db t e),
      sym (ap (λ (d : Db). d.outbox) left),
    )

-- Once a review is taken, no plugin can hand in another for that task in the store that is left.
pub resume_review_once :
    (env other : Env) (plugin_id plugin_id' : String) (params params' : Fields) (db db' db'' : Db)
    → resume_review env plugin_id params db ≡ ok db'
    → param other "task_id" params' ≡ param env "task_id" params
    → resume_review other plugin_id' params' db' ≢ ok db''
resume_review_once env other plugin_id plugin_id' params params' db db' db'' h same again =
    let (t, e, awaited, left, kept) = resume_review-IsAwaited env plugin_id params db db' h in
    let (t', e', awaited', left', kept') =
      resume_review-IsAwaited other plugin_id' params' db' db'' again in
    let here : some (resumed_task (value_or_null (get "result" params)) t) ≡ some t' =
      sym left ∙ (ap (λ (id : String). get_task id db') (sym same) ∙ e') in
    ground (arith, here, awaited'.waits, eq_iff "queued" "waiting_for_plugin")
