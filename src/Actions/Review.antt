-- ===== src/Actions/Review.antt =====
-- The first part of `TaskProcessor.github_action` in backend/maintainer/tasks.py, for a review of a pull
-- request: one session that refuses a second review of a head, or reuses a completed one.
use maintune.Base.{
  String, ◌<>◌, Bool, true, false, not, ◌&&◌, ◌||◌, Option, none, some, List, [], ◌∷◌,
  if◌then◌else◌, ◌==◌, string_eq, nat_eq, contains,
}
use maintune.Base.Int.{pos}
use maintune.Base.Result.{Result, ok, err, ◌>>=◌, ◌>>◌, raise_if}
use maintune.Base.Text.{decimal}
use maintune.Json.{Value, null, int, str, dict, Fields, end, field, get, put, update, truthy?}
use maintune.Json.Equality.{eq_value?}
use maintune.Store.{
  Db, Task, Outbox, Env, ActionError, recovery_conflict, get_task, get_repository, get_action,
  set_task, add_event, or_else, installation_of, text_value, to_text,
}
use maintune.Recovery.Remote.{get_or_null}

-- `data.get("review_request") or {}` where it is an object; nothing where it is not.
abbrev pub request_of : Fields → Option Fields
request_of content =
    if truthy? (get "review_request" content)
    then elim (get "review_request" content) [
      | none ↦ none
      | some v ↦ elim v [ dict fs ↦ some fs | _ ↦ none ]
    ]
    else some end

abbrev is_review_event : Option Value → Bool
is_review_event (some (str e)) = contains ("APPROVE" ∷ "REQUEST_CHANGES" ∷ "COMMENT" ∷ []) e
is_review_event v = false

abbrev pub event_text : Option Value → String
event_text (some (str e)) = e
event_text v = ""

-- The request names the head and the event of the action.
unfoldable pub is_consistent : Fields → Fields → Bool
is_consistent content request =
    eq_value? (get "commit_id" request) (get "head_sha" content)
    && eq_value? (get "event" request) (get "event" content)
    && is_review_event (get "event" content)

-- f"pr-review:{task.repository}:{task.number}:{head_sha}"
abbrev pub scope_key : Env → Task → Value → String
scope_key env task head =
    "pr-review:" <> task.repository <> ":" <> decimal task.number <> ":" <> to_text env head

-- A review of the same pull request that stands in the outbox.
pub record Previous : Type 0 where
  pub item : Outbox
  pub owner : Task

abbrev is_same_pull : Task → Task → Bool
is_same_pull task owner =
    owner.kind == "pull_request"
    && owner.repository == task.repository
    && owner.number == task.number

-- The join of the outbox with the tasks.
unfoldable pub previous_of : Task → List Outbox → Db → List Previous
previous_of task [] db = []
previous_of task (item ∷ rows) db =
    let rest = previous_of task rows db in
    if item.kind == "pr_review"
    then elim (get_task item.task_id db) [
      | none ↦ rest
      | some owner ↦
          if is_same_pull task owner then (record { item = item; owner = owner }) ∷ rest else rest
    ]
    else rest

-- What the action asks for.
pub record Request : Type 0 where
  pub task_id : String
  pub action_key : String
  pub head_sha : Option Value
  pub event : Option Value
  pub request : Fields
  pub request_sha256 : String
  pub installation_id : Value

unfoldable pub is_same_request : Request → Previous → Bool
is_same_request q p =
    let content : Fields = p.item.content in
    eq_value? (get "review_request" content) (some (dict q.request))
    && eq_value? (get "event" content) q.event
    && eq_value? (or_else (get "installation_id" content) (get "installation_id" p.owner.content))
        (some q.installation_id)
    && (not (truthy? (get "request_sha256" content))
        || eq_value? (get "request_sha256" content) (some (str q.request_sha256)))

abbrev has_url : Outbox → Bool
has_url item = elim item.external_url [ none ↦ false | some url ↦ not (url == "") ]

-- What the loop over the previous reviews leaves: the review that blocks, and the one to reuse.
unfoldable pub scan : Request → List Previous → Option Previous → Option Previous × Option Previous
scan q [] found = (none, found)
scan q (p ∷ ps) found =
    let same = is_same_request q p in
    let next = scan q ps found in
    let with_this = scan q ps (some p) in
    if not (eq_value? (get "head_sha" p.item.content) q.head_sha)
    then next
    else if p.item.task_id == q.task_id && p.item.action_key == q.action_key && same
    then next
    else if p.item.status == "completed" && same && has_url p.item
    then with_this
    else (some p, found)

abbrev differs : Fields → Fields → Bool
differs content end = false
differs content (field k v fs) = not (eq_value? (get k content) (some v)) || differs content fs

abbrev context_of : Request → Fields
context_of q = field "installation_id" q.installation_id (
    field "head_sha" (elim q.head_sha [ none ↦ null | some v ↦ v ])
      (field "review_event" (elim q.event [ none ↦ null | some v ↦ v ])
        (field "review_request_sha256" (str q.request_sha256) end)))

abbrev pub persist : Env → Task → Request → Db → Db
persist env task q db =
    let context : Fields = context_of q in
    let event : Fields = update context (
      field "repository" (str task.repository)
        (field "number" (int (pos task.number)) (field "action_key" (str q.action_key) end))) in
    let kept : Db =
      add_event env task.id "pr_review_context_persisted" event
        (set_task task.id (λ t. record t { content = update t.content context }) db) in
    if differs task.content context then kept else db

abbrev reuse : Env → Task → Request → Previous → Db → Db
reuse env task q p db =
    let head : Value = elim q.head_sha [ none ↦ null | some v ↦ v ] in
    let from : Value = dict (
      field "action_id" (str p.item.id)
        (field "head_sha" head (field "attempt" (int (pos task.attempts)) end))) in
    let event : Fields = field "action_id" (str p.item.id) (
      field "origin_task_id" (str p.owner.id)
        (field "head_sha" head (field "request_sha256" (str q.request_sha256) end))) in
    add_event env task.id "pr_review_reused" event
      (set_task task.id (λ t. record t { content = put "review_reused_from" from t.content }) db)

abbrev blocked_by : Request → Previous → Fields
blocked_by q p = field "action_id" (str p.item.id) (
    field "task_id" (str p.owner.id) (
      field "status" (str p.item.status)
        (field "head_sha" (elim q.head_sha [ none ↦ null | some v ↦ v ]) end)))

pub data Prepared : Type 0 where
  -- Go on with the data of the action.
  proceed : Db → Fields → Prepared
  refused : Db → ActionError → Prepared
  reused : Db → Fields → Prepared

-- The identity of the action is checked before the session writes anything.
unfoldable pub identify : Env → String → String → Fields → Db → Result ActionError (Task × Request)
identify env task_id action_key content db = do
  request ← elim (request_of content) [
    | none ↦ err (recovery_conflict "Review request identity is inconsistent")
    | some r ↦ ok r
  ]
  raise_if (not (is_consistent content request))
      (recovery_conflict "Review request identity is inconsistent")
  task ← elim (get_task task_id db) [
    | none ↦ err (recovery_conflict "A pull request task is required for review writes")
    | some t ↦ ok t
  ]
  raise_if (not (task.kind == "pull_request"))
      (recovery_conflict "A pull request task is required for review writes")
  let scope = scope_key env task (get_or_null "head_sha" content)
  let legacy = scope <> ":" <> event_text (get "event" content)
  raise_if (not (action_key == scope || action_key == legacy))
      (recovery_conflict "Review action identity is inconsistent")
  raise_if (action_key == legacy && (elim (get_action legacy db) [ none ↦ true | some r ↦ false ]))
      (recovery_conflict "New review actions require the shared PR/head identity")
  let installation =
      or_else (or_else (get "installation_id" content) (get "installation_id" task.content))
        (installation_of (get_repository task.repository db))
  raise_if (not (truthy? installation)) (recovery_conflict "Review installation is unavailable")
  raise_if
      (truthy? (get "installation_id" task.content)
        && not (eq_value? (get "installation_id" task.content) installation))
      (recovery_conflict "Review installation changed")
  ok (
    task,
    record {
      task_id = task_id;
      action_key = action_key;
      head_sha = get "head_sha" content;
      event = get "event" content;
      request = request;
      request_sha256 = env.payload_hash (dict request);
      installation_id = elim installation [ none ↦ null | some v ↦ v ];
    },
  )

-- The data that the action is reserved with.
abbrev pub review_content : Task → Request → Fields → Fields
review_content task q content = update content (
    field "repository" (str task.repository) (
      field "number" (int (pos task.number)) (
        field "installation_id" q.installation_id
          (field "request_sha256" (str q.request_sha256) end))))

abbrev pub settle :
    Env → Task → Request → Fields → Option Previous × Option Previous → Db → Prepared
settle env task q content (some p, found) db =
    refused (add_event env task.id "pr_review_blocked_existing_action" (blocked_by q p) db)
      (recovery_conflict "A review for this PR head already exists or requires reconciliation")
settle env task q content (none, none) db =
    proceed (persist env task q db) (review_content task q content)
settle env task q content (none, some p) db = reused (reuse env task q p (persist env task q db)) (
    field "id" (text_value p.item.external_id)
      (field "html_url" (text_value p.item.external_url) end))

-- The session for a review.
unfoldable pub prepare_review : Env → String → String → Fields → Db → Prepared
prepare_review env task_id action_key content db =
    elim (identify env task_id action_key content db) [
      | err e ↦ refused db e
      | ok r ↦ settle env r.0 r.1 content (scan r.1 (previous_of r.0 db.outbox db) none) db
    ]
