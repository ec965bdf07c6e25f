-- ===== src/Manager/Tests.antt =====
-- Runs of the manager's calls, and their theorems at concrete data.
use maintune.Base.{
  ◌≡◌, ◌≢◌, refl, String, true, none, some, [], ◌∷◌, string_eq, nat_eq, bool_eq, arith, length, ◌≤◌,
}
use text.Mathlib.TextEquality.{eq_iff}
use maintune.Base.Int.{pos, int_eq}
use maintune.Base.Result.{Result, ok, err}
use maintune.Base.Unicode.{ascii}
use maintune.Json.{Value, int, str, list, nil, dict, Fields, end, field}
use maintune.Json.Equality.{eq_value}
use maintune.Store.{Db, Task, Env, raised, get_task, find_first, update_where}
use maintune.PluginApi.Schema.{
  validate_schema, check_head, kind_of, check_kind, check_enum, check_object, check_tail,
  check_bounds, check_number, check_array, check_required,
}
use maintune.PluginApi.Value.{
  check_node, validate_value, check_self, has_kind, in_enum, check_members, check_names,
  required_of, is_closed, properties_of, count_fits, in_range,
}
use maintune.Broker.{BrokerDb}
use maintune.Manager.Outbox.{missing}
use maintune.Manager.Outbox.Fifo.{queued, acked, pending, run, run_fifo, outbox_refines_fifo}
use maintune.Recovery.Remote.{Remote}
use maintune.Manager.GithubCalls.{Called, plugin_error, github_call}
use maintune.Manager.GithubCalls.Approval.{unapproved_unchanged}
use maintune.Manager.Finalizers.{answered, failed}
use maintune.Manager.Finalizers.Runs.{Attempt, Finalized, finalizer_rounds}
use maintune.Manager.Reviews.{resume_review, resume_session, check_waiting, is_valid_review}
use maintune.Manager.Reviews.Once.{resume_review_once}

abbrev env : Env
env = record { now = int (pos 50); new_id = "n"; payload_hash = λ v. "h"; repr = λ v. "" }

outbox_refines_fifo_example :
    (pending (run (queued "a" (str "1") ∷ queued "b" (str "2") ∷ acked "a" ∷ []) missing)
      ≡ run_fifo (queued "a" (str "1") ∷ queued "b" (str "2") ∷ acked "a" ∷ []) [])
    × (length (pending (run (queued "a" (str "1") ∷ queued "b" (str "2") ∷ acked "a" ∷ []) missing))
        ≤ 1000)
outbox_refines_fifo_example =
    outbox_refines_fifo (queued "a" (str "1") ∷ queued "b" (str "2") ∷ acked "a" ∷ []) missing
      (omega arith) (refl, (ground (arith, eq_iff "b" "a"), (tt, tt)))

abbrev waiting : Task
waiting = record {
  id = "t1";
  kind = "pull_request";
  repository = "o/r";
  number = 4;
  status = "waiting_for_plugin";
  lease_until = none;
  attempts = 1;
  content =
      field "plugin_waiting"
        (dict (
          field "plugin_id" (str "my.plugin")
            (field "invocation_id" (str "call-0001") (field "head_sha" (str "abcdef1") end))))
        end;
}

abbrev store : Db
store = record { tasks = waiting ∷ []; outbox = []; repositories = []; timeline = [] }

abbrev review : Value
review = dict (
    field "head_sha" (str "abcdef1") (
      field "verdict" (str "approved") (
        field "summary" (str "fine") (
          field "risk" (str "low")
            (field "blocking_issues" (list nil) (field "suggestions" (list nil) end))))))

abbrev params : Fields
params =
    field "task_id" (str "t1") (field "invocation_id" (str "call-0001") (field "result" review end))

abbrev result_or : Result String Db → Db
result_or (ok db) = db
result_or (err e) = store

abbrev resumed : Db
resumed = result_or (resume_review env "my.plugin" params store)

is_valid : is_valid_review review ≡ true
unfolding validate_value validate_schema check_head kind_of check_kind check_enum check_object
    check_tail check_bounds check_number check_array check_required check_self has_kind in_enum
    check_members check_names required_of is_closed properties_of count_fits in_range eq_value
    string_eq nat_eq bool_eq int_eq check_node
is_valid = refl

is_resumed : resume_review env "my.plugin" params store ≡ ok resumed
unfolding resume_review resume_session check_waiting find_first update_where validate_value
    validate_schema check_head kind_of check_kind check_enum check_object check_tail check_bounds
    check_number check_array check_required check_self has_kind in_enum check_members check_names
    required_of is_closed properties_of count_fits in_range eq_value string_eq nat_eq bool_eq int_eq
    check_node
is_resumed = refl

resume_review_once_example : resume_review env "other.plugin" params resumed ≢ ok store
resume_review_once_example =
    resume_review_once env env "my.plugin" "other.plugin" params params store resumed store
      is_resumed refl

abbrev no_answer : Remote
no_answer = record {
  pull = err (raised "GitHubError");
  review_author = err (raised "GitHubError");
  reviews = ok [];
  comments = λ n. ok [];
}

abbrev same : String → String
same s = s

abbrev no_context : Value → Task → Called Fields
no_context v t = err (plugin_error "unused")

abbrev open_task : Task
open_task = record waiting {
  status = "queued";
  content = field "installation_id" (int (pos 3)) end;
}

abbrev open_store : Db
open_store = record store { tasks = open_task ∷ [] }

abbrev comment_params : Fields
comment_params =
    field "task_id" (str "t1")
      (field "body" (str "hello") (field "invocation_id" (str "call-0001") end))

is_found : get_task "t1" open_store ≡ some open_task
unfolding find_first string_eq
is_found = refl

unapproved_unchanged_example :
    (r : Called Fields) × ((remote : Remote) (others : Db → Db)
        (perform : Db → Db × Result String Fields)
      → github_call ascii env same "my.plugin" "github.comment" true no_context no_context remote
          others perform comment_params open_store
        ≡ (open_store, r))
unfolding string_eq
unapproved_unchanged_example =
    unapproved_unchanged ascii env "github.comment" same "my.plugin" true no_context no_context
      comment_params open_store open_task is_found
      (ground (arith, eq_iff "github.comment" "github.privileged.comment")) refl

abbrev failing : Attempt
failing = record { env = env; new_id = "call-1"; outcome = failed "TimeoutError" }

abbrev answering : Attempt
answering = record { env = env; new_id = "call-2"; outcome = answered (str "done") }

abbrev no_rows : BrokerDb
no_rows = record { db = store; config = [] }

finalizer_rounds_example :
    Finalized "t1" "my.plugin" "row"
      (λ s. s)
      "call-1"
      (failing ∷ answering ∷ answering ∷ [])
      no_rows
finalizer_rounds_example =
    finalizer_rounds "t1" "my.plugin" "row" (λ s. s) (λ s. refl) failing
      (answering ∷ answering ∷ []) no_rows refl (ground (arith, eq_iff "call-1" ""))
