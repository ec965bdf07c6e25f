-- ===== src/Recovery/Snapshot.antt =====
-- `snapshot` of backend/maintainer/review_recovery.py: the one unknown review of a failed task, if
-- everything that was stored about it agrees.
use maintune.Base.{
  ℕ, String, ◌<>◌, Bool, true, false, not, ◌&&◌, ◌||◌, Option, none, some, List, [], ◌∷◌, filter,
  all, if◌then◌else◌, ◌==◌, string_eq, nat_eq, contains,
}
use maintune.Base.Int.{pos}
use maintune.Base.Result.{ok, err, ◌>>=◌, ◌>>◌, raise_if}
use maintune.Base.Text.{codes, starts_with}
use maintune.Json.{
  Value, null, int, str, list, dict, nil, Fields, end, field, get, has_key, key_list, truthy?,
  Number, number_of, number_lt,
}
use maintune.Json.Equality.{eq_value?}
use maintune.Store.{
  Db, Task, Outbox, Repository, Timeline, Env, raised, get_task, get_repository, or_else,
  number_value, reviews_enabled,
}
use maintune.Recovery.Remote.{Item, Remotely, conflict, get_or_null}
use maintune.Actions.Review.{scope_key, event_text}

pub record RecoveryItem : Type 0 where
  pub action_id : String
  pub attempts : ℕ
  pub task_id : String
  pub item : Item
  pub payload_sha256 : String
  pub content : Fields
  pub last_attempt : Value

-- `task.status.startswith("failed_") or task.status == "interrupted"`
abbrev pub is_stopped : Task → Bool
is_stopped task = starts_with (codes task.status) (codes "failed_") || task.status == "interrupted"

abbrev pub unsettled : List String
unsettled = "unknown" ∷ "executing" ∷ "reconciling" ∷ []

abbrev pub is_unsettled : String → Outbox → Bool
is_unsettled task_id r = r.task_id == task_id && contains unsettled r.status

-- The actions of the task that have no outcome.
unfoldable pub only_unknown : List Outbox → Remotely Outbox
only_unknown (action ∷ []) =
    if action.kind == "pr_review" && action.status == "unknown"
    then ok action
    else err (conflict "Exactly one unknown PR review and no active external action is required")
only_unknown rows =
    err (conflict "Exactly one unknown PR review and no active external action is required")

abbrev number_lt? : Option Number → Option Number → Bool
number_lt? (some a) (some b) = number_lt a b
number_lt? _ _ = false

abbrev earlier : Value → Value → Bool
earlier v w = number_lt? (number_of v) (number_of w)

abbrev is_completed_review : Outbox → Timeline → Bool
is_completed_review action t =
    t.task_id == action.task_id
    && t.kind == "pr_review_completed"
    && not (earlier action.created t.timestamp)

abbrev latest_of : Timeline → Option Timeline → Timeline
latest_of t none = t
latest_of t (some u) = if earlier t.timestamp u.timestamp then u else t

latest : List Timeline → Option Timeline
latest [] = none
latest (t ∷ ts) = some (latest_of t (latest ts))

-- The data of the last review that was completed before the action was created.
unfoldable pub last_review : Outbox → Db → Fields
unfolding latest
last_review action db = elim (latest (filter (is_completed_review action) db.timeline)) [
  | none ↦ end
  | some t ↦ t.content
]

-- The request of an action that stored only a head and an event: an approval without comments.
unfoldable pub legacy_payload : Outbox → Fields → Remotely Fields
legacy_payload action review = do
  raise_if
      (not (eq_value? (get "event" action.content) (some (str "APPROVE")))
        || not (eq_value? (get "verdict" review) (some (str "approved")))
        || truthy? (get "blocking_issues" review)
        || truthy? (get "suggestions" review)
        || not (eq_value? (get "head_sha" review) (get "head_sha" action.content))
        || not (truthy? (get "summary" review)))
      (conflict "Original review payload is unavailable; do not infer or replay it")
  ok (
      field "commit_id" (get_or_null "head_sha" action.content) (
        field "event" (str "APPROVE")
          (field "body" (get_or_null "summary" review) (field "comments" (list nil) end))))

-- A request is stored as an object.
unfoldable pub payload_of : Outbox → Db → Remotely Fields
payload_of action db = elim (get "review_request" action.content) [
  | none ↦ legacy_payload action (last_review action db)
  | some v ↦ elim v [
    | null ↦ legacy_payload action (last_review action db)
    | dict fs ↦ ok fs
    | _ ↦ err (raised "TypeError")
  ]
]

abbrev payload_keys : List String
payload_keys = "commit_id" ∷ "event" ∷ "body" ∷ "comments" ∷ []

-- `set(payload) == {...}`, the types of the members and the event.
unfoldable pub well_formed : Fields → Bool
well_formed payload =
    all (contains payload_keys) (key_list payload)
    && all (λ k. has_key k payload) payload_keys
    && contains ("APPROVE" ∷ "REQUEST_CHANGES" ∷ "COMMENT" ∷ []) (event_text (get "event" payload))
    && (elim (get_or_null "body" payload) [ str s ↦ true | _ ↦ false ])
    && (elim (get_or_null "comments" payload) [ list xs ↦ true | _ ↦ false ])

-- `a and a != b`
abbrev pub set_and_differs : Option Value → Option Value → Bool
set_and_differs a b = truthy? a && not (eq_value? a b)

-- What the task, the action and the payload say of each other.
unfoldable pub agrees : Task → Outbox → Fields → String → Value → Bool
agrees task action payload sha installation =
    let head = get "commit_id" payload in
    eq_value? head (get "head_sha" action.content)
    && eq_value? (get "event" payload) (get "event" action.content)
    && not (set_and_differs (get "head_sha" task.content) head)
    && (not (truthy? (get "request_sha256" action.content))
        || eq_value? (get "head_sha" task.content) head
          && eq_value? (get "review_event" task.content) (get "event" payload)
          && eq_value? (get "review_request_sha256" task.content) (some (str sha))
          && eq_value? (get "request_sha256" action.content) (some (str sha)))
    && not (set_and_differs (get "repository" action.content) (some (str task.repository)))
    && not (set_and_differs (get "number" action.content) (some (int (pos task.number))))
    && not (set_and_differs (get "installation_id" action.content) (some installation))

-- `task.data.get("installation_id") or repo.installation_id`, checked.
unfoldable pub installation_for : Task → Repository → Remotely Value
installation_for task repo =
    let stored = number_value repo.installation_id in
    let installation = or_else (get "installation_id" task.content) stored in
    if not (truthy? installation) || set_and_differs stored installation
    then err (conflict "Repository installation changed")
    else ok (elim installation [ none ↦ null | some v ↦ v ])

unfoldable pub stopped_task : String → Db → Remotely Task
stopped_task task_id db = elim (get_task task_id db) [
  | none ↦ err (conflict "A failed or interrupted PR task is required")
  | some task ↦
      if task.kind == "pull_request" && is_stopped task
      then ok task
      else err (conflict "A failed or interrupted PR task is required")
]

unfoldable pub reviewed_repository : Task → Db → Remotely Repository
reviewed_repository task db = elim (get_repository task.repository db) [
  | none ↦ err (conflict "Repository review access is disabled")
  | some r ↦
      if reviews_enabled r then ok r else err (conflict "Repository review access is disabled")
]

unfoldable pub snapshot : Env → String → Db → Remotely RecoveryItem
snapshot env task_id db = do
  task ← stopped_task task_id db
  action ← only_unknown (filter (is_unsettled task_id) db.outbox)
  repo ← reviewed_repository task db
  installation ← installation_for task repo
  payload ← payload_of action db
  let sha = env.payload_hash (dict payload)
  raise_if (not (well_formed payload && agrees task action payload sha installation))
      (conflict "Original review payload or task head is inconsistent")
  let scope = scope_key env task (get_or_null "commit_id" payload)
  raise_if
      (not (
        action.action_key == scope
        || action.action_key == (scope <> ":" <> event_text (get "event" payload))))
      (conflict "Review action identity is inconsistent")
  ok (record {
    action_id = action.id;
    attempts = action.attempts;
    task_id = task.id;
    item = record {
      repository = task.repository;
      number = task.number;
      installation = installation;
      head_sha = get_or_null "commit_id" payload;
      payload = payload;
    };
    payload_sha256 = sha;
    content = action.content;
    last_attempt = elim (get "attempt_started_at" action.content) [
      | none ↦ action.created
      | some v ↦ v
    ];
  })
