-- ===== src/Recovery/Tests.antt =====
-- Runs of the recovery of a review, and its theorems at concrete data.
use maintune.Base.{
  ◌≡◌, ◌≢◌, ◌≤◌, ◌+◌, ◌*◌, ◌^◌, refl, true, none, some, [], ◌∷◌, string_eq, nat_eq, bool_eq,
}
use maintune.Base.Int.{pos, int_eq}
use maintune.Base.Text.{decimal}
use maintune.Base.Result.{Result, ok, err}
use maintune.Json.{null, bool, int, float, str, list, dict, nil, Fields, end, field, get}
use maintune.Json.Equality.{eq_value}
use maintune.Json.Same.{same_value}
use maintune.Store.{Db, Task, Outbox, Repository, Env, ActionError, find_first, update_where}
use maintune.Recovery.Remote.{
  Remote, complete_list, expected_state, pull_moved, matches, inspect_remote,
}
use maintune.Recovery.Snapshot.{
  RecoveryItem, only_unknown, payload_of, well_formed, agrees, installation_for, stopped_task,
  reviewed_repository, snapshot,
}
use maintune.Recovery.Recover.{
  RecoveryDecision, claim_review, is_preview, hold, authorize, is_recent, less_apart, settle_review,
  reconcile_review, unchanged, recover_review,
}
use maintune.Recovery.Exclusive.{claim_review-excludes, reconcile_review-authorized}

abbrev env : Env
env = record {
  now = float (pos 1000) 0;
  new_id = "claim";
  payload_hash = λ v. "hash";
  repr = λ v. "";
}

abbrev payload : Fields
payload =
    field "commit_id" (str "abc")
      (field "event" (str "APPROVE") (field "body" (str "fine") (field "comments" (list nil) end)))

abbrev content : Fields
content =
    field "head_sha" (str "abc")
      (field "event" (str "APPROVE") (field "review_request" (dict payload) end))

abbrev action : Outbox
action = record {
  id = "a";
  task_id = "t";
  action_key = "pr-review:o/r:5:abc";
  kind = "pr_review";
  status = "unknown";
  attempts = 1;
  created = float (pos 10) 0;
  content = content;
  external_id = none;
  external_url = none;
  error = none;
}

abbrev task : Task
task = record {
  id = "t";
  kind = "pull_request";
  repository = "o/r";
  number = 5;
  status = "interrupted";
  lease_until = none;
  attempts = 1;
  content = field "head_sha" (str "abc") end;
}

abbrev repository : Repository
repository = record {
  full_name = "o/r";
  installation_id = some 3;
  content = field "enabled" (bool true) (field "auto_review_prs" (bool true) end);
}

abbrev db : Db
db = record {
  tasks = task ∷ [];
  outbox = action ∷ [];
  repositories = repository ∷ [];
  timeline = [];
}

abbrev decision : RecoveryDecision
decision = record {
  action_id = "a";
  attempts = 1;
  head_sha = "abc";
  payload_sha256 = "hash";
  retry_authorized = true;
  reason = "checked by hand";
}

abbrev x : RecoveryItem
x = record {
  action_id = "a";
  attempts = 1;
  task_id = "t";
  item = record {
    repository = "o/r";
    number = 5;
    installation = int (pos 3);
    head_sha = str "abc";
    payload = payload;
  };
  payload_sha256 = "hash";
  content = content;
  last_attempt = float (pos 10) 0;
}

abbrev review_free : Remote
review_free = record {
  pull = ok (field "state" (str "open") (field "head" (dict (field "sha" (str "abc") end)) end));
  review_author = ok (str "bot[bot]");
  reviews = ok [];
  comments = λ n. ok [];
}

abbrev held : Db
held = record db { outbox = hold env x action ∷ [] }

is_held : claim_review env "t" decision db ≡ ok (held, x)
unfolding claim_review snapshot stopped_task find_first only_unknown reviewed_repository
    installation_for payload_of well_formed agrees is_preview update_where string_eq nat_eq int_eq
    eq_value same_value decimal
is_held = refl

claim_review-excludes_example : claim_review env "t" decision held ≢ ok (held, x)
claim_review-excludes_example =
    claim_review-excludes env env "t" decision decision db held x (held, x) is_held

abbrev result_or : Result ActionError (Db × Fields) → Db × Fields
result_or (ok r) = r
result_or (err e) = (db, end)

abbrev settled : Db × Fields
settled = result_or (reconcile_review env env review_free "t" x decision held)

is_settled : reconcile_review env env review_free "t" x decision held ≡ ok settled
unfolding reconcile_review inspect_remote pull_moved complete_list expected_state matches authorize
    is_recent less_apart settle_review unchanged find_first update_where string_eq nat_eq int_eq
    eq_value same_value
is_settled = refl

is_retried : get "outcome" settled.1 ≡ some (str "retry_authorized")
unfolding reconcile_review inspect_remote pull_moved complete_list expected_state matches authorize
    is_recent less_apart settle_review unchanged find_first update_where string_eq nat_eq int_eq
    eq_value same_value
is_retried = refl

reconcile_review-authorized_example : (decision.retry_authorized ≡ true) × (10 + 120 * 2 ^ 0 ≤ 1000)
reconcile_review-authorized_example =
    reconcile_review-authorized env env review_free "t" x decision held settled 1000 10 0 is_settled
      is_retried refl refl

-- The whole recovery: the action is pending again, and the task is queued.
recovered :
    (recover_review env env review_free (λ d. d) "t" decision db).1
    ≡ ok (
        field "status"
          (str "queued")
          (field "outcome" (str "retry_authorized") (field "review_url" null end)))
unfolding recover_review claim_review snapshot stopped_task find_first only_unknown
    reviewed_repository installation_for payload_of well_formed agrees is_preview reconcile_review
    inspect_remote pull_moved complete_list expected_state matches authorize is_recent less_apart
    settle_review unchanged update_where string_eq nat_eq int_eq eq_value same_value decimal
recovered = refl
