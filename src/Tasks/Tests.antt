-- ===== src/Tasks/Tests.antt =====
-- Runs of the statuses of a task, and their theorems at concrete data.
use maintune.Base.{◌≡◌, ◌≢◌, refl, String, true, Option, none, some, [], ◌∷◌, string_eq, nat_eq}
use maintune.Base.Int.{pos}
use maintune.Base.Result.{Result, ok, err}
use maintune.Json.{int, str, end}
use maintune.Store.{Db, Task, Outbox, Env, raised, get_action, find_first}
use maintune.Recovery.Remote.{Remote}
use maintune.Recovery.Snapshot.{RecoveryItem, snapshot}
use maintune.Actions.{performs, decide}
use maintune.Tasks.{restart, begin_task, retry_task, plugin_event, is_under_way}
use maintune.Tasks.Restart.{restart_never_performs}
use maintune.Tasks.Exclusion.{retry_excludes_recovery, begin_task_once}

abbrev env : Env
env = record { now = int (pos 50); new_id = "n"; payload_hash = λ v. "h"; repr = λ v. "" }

abbrev task : Task
task = record {
  id = "t";
  kind = "issue";
  repository = "o/r";
  number = 4;
  status = "queued";
  lease_until = none;
  attempts = 0;
  content = end;
}

abbrev row : Outbox
row = record {
  id = "a";
  task_id = "t";
  action_key = "close-issue:t";
  kind = "close_issue";
  status = "executing";
  attempts = 1;
  created = int (pos 10);
  content = end;
  external_id = none;
  external_url = none;
  error = none;
}

abbrev queue : Db
queue = record { tasks = task ∷ []; outbox = row ∷ []; repositories = []; timeline = [] }

abbrev store_or : Option Db → Db
store_or none = queue
store_or (some db) = db

abbrev begun : Db
begun = store_or (begin_task env (int (pos 1250)) "t" queue)

is_begun : begin_task env (int (pos 1250)) "t" queue ≡ some begun
unfolding begin_task find_first string_eq
is_begun = refl

begin_task_once_example : begin_task env (int (pos 1250)) "t" begun ≡ none
begin_task_once_example =
    begin_task_once env env (int (pos 1250)) (int (pos 1250)) "t" queue begun is_begun

abbrev no_answer : Remote
no_answer = record {
  pull = err (raised "GitHubError");
  review_author = err (raised "GitHubError");
  reviews = ok [];
  comments = λ n. ok [];
}

found_row : get_action "close-issue:t" queue ≡ some row
unfolding find_first string_eq
found_row = refl

row_under_way : is_under_way row ≡ true
unfolding string_eq
row_under_way = refl

restart_never_performs_example :
    decide env no_answer (λ db. db) "t" "close_issue" "close-issue:t" end (restart env queue)
    ≢ performs queue row
restart_never_performs_example =
    restart_never_performs env env no_answer (λ db. db) "t" "close_issue" "close-issue:t" end queue
      queue row row found_row row_under_way

abbrev stopped : Db
stopped = record queue {
  tasks = record task { status = "failed_agent"; kind = "pull_request" } ∷ [];
  outbox = record row { status = "completed" } ∷ [];
}

abbrev retried_or : Result String Db → Db
retried_or (ok db) = db
retried_or (err e) = queue

is_retried : retry_task env "t" stopped ≡ ok (retried_or (retry_task env "t" stopped))
unfolding retry_task find_first string_eq nat_eq
is_retried = refl

abbrev some_item : RecoveryItem
some_item = record {
  action_id = "a";
  attempts = 1;
  task_id = "t";
  item = record {
    repository = "o/r";
    number = 4;
    installation = int (pos 3);
    head_sha = str "abc";
    payload = end;
  };
  payload_sha256 = "h";
  content = end;
  last_attempt = int (pos 10);
}

retry_excludes_recovery_example : snapshot env "t" stopped ≢ ok some_item
retry_excludes_recovery_example =
    retry_excludes_recovery env env "t" stopped (retried_or (retry_task env "t" stopped)) some_item
      is_retried

event_of_failure : plugin_event "issue" "failed_agent" ≡ some "task.failed"
unfolding plugin_event string_eq nat_eq
event_of_failure = refl
