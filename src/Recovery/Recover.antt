-- ===== src/Recovery/Recover.antt =====
-- `recover_review` of backend/maintainer/review_recovery.py: an administrator settles the unknown review
-- of a task. Other sessions may run while GitHub is asked; what they do is the parameter `others`.
use maintune.Base.{
  ℕ, ◌+◌, ◌*◌, ◌^◌, String, Bool, true, false, not, ◌&&◌, ◌||◌, Option, none, some, List, [], ◌∷◌,
  if◌then◌else◌, ◌==◌, string_eq, nat_eq, ltb,
}
use maintune.Base.Int.{scale, pos_part, neg_part}
use maintune.Base.Result.{ok, err, ◌>>=◌, ◌>>◌, raise_if}
use maintune.Json.{
  Value, bool, str, dict, Fields, end, field, get, put, update, without, truthy?, Number, number_of,
}
use maintune.Json.Equality.{eq_value, eq_value?}
use maintune.Json.Same.{same_fields}
use maintune.Store.{
  Db, Task, Outbox, Repository, Env, raised, get_task, get_repository, set_task, add_event,
  update_where, or_else, number_value, installation_of, reviews_enabled, text_value, to_text,
}
use maintune.Recovery.Remote.{Remote, Remotely, conflict, get_or_null, inspect_remote}
use maintune.Recovery.Snapshot.{RecoveryItem, snapshot, is_stopped, set_and_differs}

-- `RecoveryDecision`
pub record RecoveryDecision : Type 0 where
  pub action_id : String
  pub attempts : ℕ
  pub head_sha : String
  pub payload_sha256 : String
  pub retry_authorized : Bool
  pub reason : String

unfoldable pub is_preview : RecoveryDecision → RecoveryItem → Bool
is_preview d x =
    d.action_id == x.action_id
    && d.attempts == x.attempts
    && eq_value (str d.head_sha) x.item.head_sha
    && d.payload_sha256 == x.payload_sha256

abbrev pub claimed_content : Env → RecoveryItem → Fields
claimed_content env x = put "recovery_claim" (str env.new_id) x.content

-- The rows that the claim takes, and those that it holds.
abbrev pub is_claimable : RecoveryItem → Outbox → Bool
is_claimable x r =
    r.id == x.action_id
    && r.status == "unknown"
    && r.attempts == x.attempts
    && same_fields r.content x.content

abbrev pub is_held : Env → RecoveryItem → Outbox → Bool
is_held env x r =
    r.id == x.action_id
    && r.status == "reconciling"
    && same_fields r.content (claimed_content env x)

abbrev pub hold : Env → RecoveryItem → Outbox → Outbox
hold env x r = record r { status = "reconciling"; content = claimed_content env x }

abbrev pub exactly_one : List Outbox × ℕ → String → Db → Remotely Db
exactly_one rows message db =
    if rows.1 == 1 then ok (record db { outbox = rows.0 }) else err (conflict message)

-- The first two sessions: the preview is compared, and the action is claimed.
unfoldable pub claim_review : Env → String → RecoveryDecision → Db → Remotely (Db × RecoveryItem)
claim_review env task_id decision db = do
  x ← snapshot env task_id db
  raise_if (not (is_preview decision x))
      (conflict "Recovery preview changed; inspect the action again")
  claimed ←
      exactly_one (update_where (is_claimable x) (hold env x) db.outbox)
        "Another recovery already claimed this action" db
  ok (claimed, x)

-- `a - b < 120` of two clock readings.
unfoldable pub less_apart : Option Number → Option Number → Remotely Bool
less_apart (some a) (some b) =
    let x = scale a.mantissa (2 ^ b.shift) in
    let y = scale b.mantissa (2 ^ a.shift) in
    ok (ltb (pos_part x + neg_part y) (pos_part y + neg_part x + 120 * 2 ^ (a.shift + b.shift)))
less_apart _ _ = err (raised "TypeError")

unfoldable pub is_recent : Value → Value → Remotely Bool
unfolding less_apart
is_recent now last = less_apart (number_of now) (number_of last)

-- What the administrator's decision allows, by what GitHub has.
unfoldable pub authorize :
    Env → RecoveryItem → RecoveryDecision → Option Fields → Remotely (Unit {0})
authorize env x decision (some review) = ok tt
authorize env x decision none = do
  raise_if (not decision.retry_authorized)
      (conflict "No review found; explicit admin retry authorization is required")
  recent ← is_recent env.now x.last_attempt
  raise_if recent
      (conflict "Wait at least two minutes after the last attempt before authorizing a retry")

-- The task and the repository are still the ones that were asked about.
unfoldable pub unchanged : RecoveryItem → Task → Option Repository → Bool
unchanged x task repo =
    not (set_and_differs (get "head_sha" task.content) (some x.item.head_sha))
    && (not (truthy? (get "request_sha256" x.content))
        || eq_value? (get "head_sha" task.content) (some x.item.head_sha))
    && is_stopped task
    && eq_value? (or_else (get "installation_id" task.content) (installation_of repo))
        (some x.item.installation)
    && (elim repo [
      | none ↦ false
      | some r ↦
          reviews_enabled r
          && not (set_and_differs (number_value r.installation_id) (some x.item.installation))
    ])

abbrev url_of : Option Fields → Option String
url_of none = none
url_of (some review) = elim (get "html_url" review) [
  | none ↦ none
  | some v ↦ elim v [ str s ↦ some s | _ ↦ none ]
]

abbrev id_of : Env → Option Fields → Option String
id_of env none = none
id_of env (some review) = some (to_text env (get_or_null "id" review))

abbrev pub is_found : Option Fields → Bool
is_found none = false
is_found (some review) = true

-- `str` of the status that an action is settled with.
abbrev pub settled_status : Option Fields → String
settled_status match = if is_found match then "completed" else "pending"

abbrev pub settle_row : Env → RecoveryItem → RecoveryDecision → Option Fields → Outbox → Outbox
settle_row env x decision match r =
    let recovery : Value = dict (
      field "at" env.now (
        field "reason" (str decision.reason) (
          field "retry_authorized" (bool (not (is_found match))) (
            field "installation_id" x.item.installation
              (field "payload_sha256" (str x.payload_sha256) end))))) in
    record r {
      status = settled_status match;
      content = put "recovery" recovery (put "review_request" (dict x.item.payload) x.content);
      external_id = id_of env match;
      external_url = url_of match;
      error = none;
    }

abbrev requeue : RecoveryItem → Task → Task
requeue x task = record task {
  status = "queued";
  lease_until = none;
  content = update (without ("error" ∷ "failure" ∷ []) task.content) (
      field "head_sha" x.item.head_sha (
        field "review_event" (get_or_null "event" x.item.payload)
          (field "review_request_sha256" (str x.payload_sha256) end)));
}

abbrev event_of : RecoveryItem → RecoveryDecision → Option Fields → Fields
event_of x decision match = field "action_id" (str x.action_id) (
    field "head_sha" x.item.head_sha (
      field "payload_sha256" (str x.payload_sha256) (
        field "reason" (str decision.reason)
          (field "source" (str "admin_api") (field "review_url" (text_value (url_of match)) end)))))

abbrev pub stored_task : String → Db → Remotely Task
stored_task task_id db = elim (get_task task_id db) [
  | none ↦ err (conflict "Task or repository changed during reconciliation")
  | some t ↦ ok t
]

-- The session that settles the action; `env'` is the one that the claim was made in.
unfoldable pub settle_review :
    Env
    → Env
    → String
    → RecoveryItem
    → RecoveryDecision
    → Option Fields
    → Db
    → Remotely (Db × Fields)
settle_review env' env task_id x decision match db = do
  task ← stored_task task_id db
  raise_if (not (unchanged x task (get_repository x.item.repository db)))
      (conflict "Task or repository changed during reconciliation")
  settled ←
      exactly_one (update_where (is_held env' x) (settle_row env x decision match) db.outbox)
        "Recovery claim changed" db
  ok (
    add_event env task_id
        (if is_found match then "github_review_reconciled" else "github_review_retry_authorized")
        (event_of x decision match) (set_task task_id (requeue x) settled),
    field "status" (str "queued") (
        field "outcome" (str (if is_found match then "reconciled" else "retry_authorized"))
          (field "review_url" (text_value (url_of match)) end)),
  )

-- The `finally` clause: a claim that is still held is given back.
unfoldable pub release : Env → RecoveryItem → Db → Db
release env' x db = record db {
  outbox =
      (update_where (is_held env' x) (λ r. record r { status = "unknown"; content = x.content })
        db.outbox).0;
}

-- The body of the `try`, over the store that the others left.
unfoldable pub reconcile_review :
    Env → Env → Remote → String → RecoveryItem → RecoveryDecision → Db → Remotely (Db × Fields)
reconcile_review env' env remote task_id x decision later = do
  match ← inspect_remote remote x.item
  authorize env x decision match
  settle_review env' env task_id x decision match later

unfoldable pub recover_review :
    Env → Env → Remote → (Db → Db) → String → RecoveryDecision → Db → Db × Remotely Fields
recover_review env' env remote others task_id decision db =
    elim (claim_review env' task_id decision db) [
      | err e ↦ (db, err e)
      | ok c ↦
          let later : Db = others c.0 in
          elim (reconcile_review env' env remote task_id c.1 decision later) [
            | err e ↦ (release env' c.1 later, err e)
            | ok r ↦ (release env' c.1 r.0, ok r.1)
          ]
    ]
