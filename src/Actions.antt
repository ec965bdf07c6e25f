-- ===== src/Actions.antt =====
-- `reserve` and `github_action` of backend/maintainer/tasks.py: an action on GitHub is reserved in the
-- outbox, claimed, performed and settled. Other sessions may run while a call to GitHub is awaited: what
-- they do to the store is part of the parameters `others` and `perform`.
pub mod Review
pub mod Retry
pub mod Once
pub mod Performs
pub mod Tests
use maintune.Base.{
  ℕ, suc, ◌+◌, String, Bool, true, false, not, ◌&&◌, ◌||◌, Option, none, some, List, [], ◌∷◌,
  if◌then◌else◌, ◌==◌, string_eq, nat_eq, contains,
}
use maintune.Base.Result.{Result, ok, err}
use maintune.Json.{Value, null, str, dict, Fields, end, field, get, put, truthy?, truthy}
use maintune.Json.Equality.{eq_value?}
use maintune.Store.{
  Db, Outbox, Env, ActionError, recovery_conflict, runtime_error, raised, get_action, set_action,
  add_event, update_where, text_value, to_text,
}
use maintune.Recovery.Remote.{Remote, fields_of}
use maintune.Actions.Review.{Prepared, proceed, refused, reused, prepare_review}
use maintune.Actions.Retry.{Checked, unmatched, matched, failed, check_retry, is_authorized}

-- `reserve`
unfoldable pub reserve : Env → String → String → String → Fields → Db → Db × Outbox
reserve env task_id kind action_key content db = elim (get_action action_key db) [
  | some row ↦ (db, row)
  | none ↦
      let row : Outbox = record {
        id = env.new_id;
        task_id = task_id;
        action_key = action_key;
        kind = kind;
        status = "pending";
        attempts = 0;
        created = env.now;
        content = content;
        external_id = none;
        external_url = none;
        error = none;
      } in
      let event : Fields = field "kind" (str kind) (field "action_key" (str action_key) end) in
      (add_event env task_id "action_reserved" event (record db { outbox = row ∷ db.outbox }), row)
]

-- The `where` clause of both updates of a pending row.
abbrev pub is_pending : Outbox → Outbox → Bool
is_pending row r = r.id == row.id && r.status == "pending" && r.attempts == row.attempts

abbrev pub executing : Env → Outbox → Outbox → Outbox
executing env row r = record r {
  status = "executing";
  attempts = row.attempts + 1;
  content = put "attempt_started_at" env.now row.content;
}

abbrev updated_one : (rows : List Outbox × ℕ) → ActionError → Db → Result ActionError Db
updated_one rows e db = if rows.1 == 1 then ok (record db { outbox = rows.0 }) else err e

-- The session that claims the row for one attempt.
unfoldable pub claim : Env → Outbox → Db → Result ActionError Db
claim env row db =
    updated_one (update_where (is_pending row) (executing env row) db.outbox)
      (runtime_error "GitHub action was claimed concurrently") db

abbrev option_text : Option Value → Option String
option_text (some (str s)) = some s
option_text v = none

abbrev id_text : Env → Option Value → String
id_text env (some v) = if truthy v then to_text env v else ""
id_text env none = ""

-- The session that completes a row whose review GitHub has already.
unfoldable pub reconcile : Env → Outbox → Fields → Db → Result ActionError Db
reconcile env row review db =
    elim (updated_one
      (update_where (is_pending row)
        (λ r. record r {
          status = "completed";
          external_id = some (id_text env (get "id" review));
          external_url = option_text (get "html_url" review);
        })
        db.outbox)
      (recovery_conflict "Review action was claimed concurrently") db) [
        | err e ↦ err e
        | ok done ↦ ok (
            add_event env row.task_id "github_review_reconciled"
              (field "action_id" (str row.id) (
                field "source" (str "before_retry")
                  (field "review_url" (text_value (option_text (get "html_url" review))) end)))
              done)
      ]

-- An answer without a call, or a claimed row to perform the action of.
pub data Decision : Type 0 where
  answered : Db → Result ActionError Fields → Decision
  performs : Db → Outbox → Decision

abbrev on_claim : Env → Outbox → Db → Decision
on_claim env row db = elim (claim env row db) [
  | err e ↦ answered db (err e)
  | ok claimed ↦ performs claimed row
]

-- The end of the checks on a pending row.
unfoldable pub attempt : Env → Remote → (Db → Db) → String → String → Outbox → Db → Decision
attempt env remote others task_id kind row db =
    if kind == "pr_review" && is_authorized row
    then elim (check_retry remote others task_id row db) [
      | failed after e ↦ answered after (err e)
      | unmatched after ↦ on_claim env row after
      | matched after review ↦ elim (reconcile env row review after) [
        | err e ↦ answered after (err e)
        | ok done ↦ answered done (ok review)
      ]
    ]
    else on_claim env row db

-- `row.data["review_request"] != data.get("review_request")`
abbrev request_changed : Outbox → Fields → Bool
request_changed row content =
    not (eq_value? (get "review_request" row.content) (get "review_request" content))

-- What a row that is reserved allows.
unfoldable pub decide_row :
    Env → Remote → (Db → Db) → String → String → Fields → Outbox → Db → Decision
decide_row env remote others task_id kind content row db =
    let changed : Decision =
      answered db (err (recovery_conflict "Reserved review content changed; do not replay it")) in
    if kind == "pr_review"
      && truthy? (get "review_request" row.content)
      && request_changed row content
    then changed
    else if row.status == "completed"
    then answered db (
        ok (
          field "id" (text_value row.external_id)
            (field "html_url" (text_value row.external_url) end)))
    else if contains ("unknown" ∷ "executing" ∷ "reconciling" ∷ []) row.status
    then answered db (err (runtime_error "GitHub action outcome unknown; reconcile before retry"))
    else if kind == "pr_review" && request_changed row content
    then changed
    else attempt env remote others task_id kind row db

unfoldable pub decide_reserved :
    Env → Remote → (Db → Db) → String → String → String → Fields → Db → Decision
decide_reserved env remote others task_id kind action_key content db =
    let r = reserve env task_id kind action_key content db in
    decide_row env remote others task_id kind content r.1 r.0

-- `github_action` up to the call.
unfoldable pub decide : Env → Remote → (Db → Db) → String → String → String → Fields → Db → Decision
decide env remote others task_id kind action_key content db =
    if kind == "pr_review"
    then elim (prepare_review env task_id action_key content db) [
      | refused after e ↦ answered after (err e)
      | reused after review ↦ answered after (ok review)
      | proceed after more ↦ decide_reserved env remote others task_id kind action_key more after
    ]
    else decide_reserved env remote others task_id kind action_key content db

-- The session after the call: the outcome is stored, or unknown after any exception.
unfoldable pub record_outcome :
    Env → String → String → Outbox → Db → Result String Fields → Db × Result ActionError Fields
record_outcome env task_id kind row db (err e) = (
  add_event env task_id "github_action_unknown" (field "kind" (str kind) end)
      (set_action row.id (λ r. record r { status = "unknown" }) db),
  err (raised e),
)
record_outcome env task_id kind row db (ok result) =
    let id = id_text env (get "id" result) in
    let url = option_text (get "html_url" result) in
    (
      add_event env task_id "github_action_completed"
          (field "kind" (str kind) (field "id" (str id) (field "url" (text_value url) end)))
          (set_action row.id
            (λ r. record r { status = "completed"; external_id = some id; external_url = url }) db),
      ok result,
    )

-- `github_action`; `perform` is the call, with what other sessions do while it is awaited.
unfoldable pub github_action :
    Env
    → Remote
    → (Db → Db)
    → (Db → Db × Result String Fields)
    → String
    → String
    → String
    → Fields
    → Db
    → Db × Result ActionError Fields
github_action env remote others perform task_id kind action_key content db =
    elim (decide env remote others task_id kind action_key content db) [
      | answered after r ↦ (after, r)
      | performs claimed row ↦
          let done = perform claimed in record_outcome env task_id kind row done.0 done.1
    ]
