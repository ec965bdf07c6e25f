-- ===== src/Actions/Retry.antt =====
-- The check of `TaskProcessor.github_action` in backend/maintainer/tasks.py before a review that an
-- administrator authorized is published again: GitHub is asked once more whether it has it.
use maintune.Base.{String, Bool, not, ◌||◌, Option, none, some, if◌then◌else◌, string_eq, nat_eq}
use maintune.Base.Result.{Result, ok, err, ◌>>=◌, ◌>>◌, raise_if}
use maintune.Json.{Value, Fields, get, truthy?}
use maintune.Json.Equality.{eq_value?}
use maintune.Store.{
  Db, Task, Outbox, Repository, ActionError, recovery_conflict, raised, get_task, get_repository,
  or_else, number_value, reviews_enabled,
}
use maintune.Recovery.Remote.{Remote, Item, fields_of, inspect_remote}

-- `d.get(k, default)` where the default may be `None`.
abbrev pub get_default : Option Value → Option Value → Option Value
get_default none default = default
get_default (some v) default = some v

-- `db.get(Task, task_id)`, whose repository is asked for next.
abbrev task_of : String → Db → Result ActionError Task
task_of task_id db = elim (get_task task_id db) [
  | none ↦ err (raised "AttributeError")
  | some t ↦ ok t
]

-- `d[k]`
abbrev required : String → Fields → Result ActionError Value
required key fs = elim (get key fs) [ none ↦ err (raised "KeyError") | some v ↦ ok v ]

abbrev enabled_repository : Task → Db → ActionError → Result ActionError Repository
enabled_repository task db e = elim (get_repository task.repository db) [
  | none ↦ err e
  | some r ↦ if reviews_enabled r then ok r else err e
]

-- `row.data.get("recovery", {})`
abbrev pub recovery_of : Outbox → Fields
recovery_of row = fields_of (get "recovery" row.content)

abbrev pub is_authorized : Outbox → Bool
is_authorized row = truthy? (get "retry_authorized" (recovery_of row))

-- The first session, and the item to ask about.
unfoldable pub retry_item : String → Outbox → Db → Result ActionError Item
retry_item task_id row db = do
  task ← task_of task_id db
  repository ← enabled_repository task db (recovery_conflict "Repository review access is disabled")
  let installation = number_value repository.installation_id
  head_sha ← required "head_sha" row.content
  raise_if
      (not (eq_value? (get "head_sha" task.content) (some head_sha))
        || not (truthy? installation)
        || not (
            eq_value? (get_default (get "installation_id" task.content) installation) installation))
      (recovery_conflict "Task head or repository installation changed")
  request ← required "review_request" row.content
  ok (record {
    repository = task.repository;
    number = task.number;
    installation = elim (or_else (get "installation_id" task.content) installation) [
      | none ↦ Value.null
      | some v ↦ v
    ];
    head_sha = head_sha;
    payload = fields_of (some request);
  })

-- The second session, after GitHub has answered.
unfoldable pub recheck : String → Outbox → Db → Result ActionError (Unit {0})
recheck task_id row db = do
  task ← task_of task_id db
  let changed = recovery_conflict "Review access changed during the final reconciliation check"
  expected ← required "installation_id" (recovery_of row)
  repository ← enabled_repository task db changed
  raise_if
      (not (eq_value? (number_value repository.installation_id) (some expected))
        || not (
            eq_value? (get_default (get "installation_id" task.content) (some expected))
              (some expected)))
      changed
  head_sha ← required "head_sha" row.content
  raise_if (not (eq_value? (get "head_sha" task.content) (some head_sha))) changed

pub data Checked : Type 0 where
  unmatched : Db → Checked
  matched : Db → Fields → Checked
  failed : Db → ActionError → Checked

-- Both sessions around the question; `others` is what other sessions do while it is awaited.
unfoldable pub check_retry : Remote → (Db → Db) → String → Outbox → Db → Checked
check_retry remote others task_id row db = elim (retry_item task_id row db) [
  | err e ↦ failed db e
  | ok item ↦
      let later : Db = others db in
      elim (inspect_remote remote item) [
        | err e ↦ failed later e
        | ok match ↦ elim (recheck task_id row later) [
          | err e ↦ failed later e
          | ok u ↦ elim match [ none ↦ unmatched later | some review ↦ matched later review ]
        ]
      ]
]
