-- ===== src/Actions/Tests.antt =====
-- Runs of `github_action`, and its theorems at concrete data.
use maintune.Base.{◌≡◌, ◌≢◌, refl, true, none, some, [], ◌∷◌, string_eq, nat_eq, arith, contains}
use text.Mathlib.TextEquality.{eq_iff}
use maintune.Base.Int.{pos}
use maintune.Base.Result.{Result, ok, err}
use maintune.Json.{int, str, Fields, end, field}
use maintune.Store.{
  Db, Outbox, Env, ActionError, runtime_error, raised, get_action, find_first, update_where,
}
use maintune.Recovery.Remote.{Remote}
use maintune.Actions.{
  performs, reserve, executing, claim, decide, record_outcome, github_action, decide_row,
  decide_reserved, attempt,
}
use maintune.Actions.Once.{settled, claim_once, settled_never_performs, unknown_never_performs}
use maintune.Actions.Performs.{reserved_row, new_action_performs}

abbrev env : Env
env = record { now = int (pos 100); new_id = "n"; payload_hash = λ v. "h"; repr = λ v. "" }

abbrev no_answer : Remote
no_answer = record {
  pull = err (raised "GitHubError");
  review_author = err (raised "GitHubError");
  reviews = ok [];
  comments = λ n. ok [];
}

abbrev nobody : Db → Db
nobody db = db

abbrev row : Outbox
row = reserved_row env "t" "close_issue" "close-issue:t" end

abbrev one_row : Db
one_row = record { tasks = []; outbox = row ∷ []; repositories = []; timeline = [] }

abbrev empty_store : Db
empty_store = record { tasks = []; outbox = []; repositories = []; timeline = [] }

abbrev answer : Fields
answer = field "id" (int (pos 7)) (field "html_url" (str "https://x") end)

abbrev claimed : Db
claimed = record one_row { outbox = executing env row row ∷ [] }

abbrev closed : Db × Result ActionError Fields
closed =
    github_action env no_answer nobody (λ db. (db, ok answer)) "t" "close_issue" "close-issue:t" end
      empty_store

closed_once : closed.1 ≡ ok answer
unfolding github_action decide decide_reserved decide_row reserve attempt claim update_where
    find_first record_outcome string_eq nat_eq
closed_once = refl

is_claimed : claim env row one_row ≡ ok claimed
unfolding claim update_where string_eq nat_eq
is_claimed = refl

claim_once_example :
    claim env row claimed ≡ err (runtime_error "GitHub action was claimed concurrently")
claim_once_example = claim_once env env row row one_row claimed (tt, tt) refl is_claimed

found_row : get_action "close-issue:t" claimed ≡ some (executing env row row)
unfolding find_first string_eq
found_row = refl

executing_is_settled : contains settled "executing" ≡ true
unfolding string_eq
executing_is_settled = refl

settled_never_performs_example :
    decide env no_answer nobody "t" "close_issue" "close-issue:t" end claimed ≢ performs claimed row
settled_never_performs_example =
    settled_never_performs env no_answer nobody "t" "close_issue" "close-issue:t" end claimed
      claimed (executing env row row) row found_row executing_is_settled

unknown_never_performs_example :
    decide env no_answer nobody "t" "close_issue" "close-issue:t" end
      (record_outcome env "t" "close_issue" row claimed (err "TimeoutError")).0
    ≢ performs claimed row
unknown_never_performs_example =
    unknown_never_performs env env no_answer nobody "t" "close_issue" "close-issue:t" "TimeoutError"
      "t" "close_issue" end claimed claimed row (executing env row row) row found_row refl

no_row : get_action "close-issue:t" empty_store ≡ none
unfolding find_first
no_row = refl

new_action_performs_example :
    (after : Db) × (decide env no_answer nobody "t" "close_issue" "close-issue:t" end empty_store
      ≡ performs after row)
    × (after.outbox ≡ executing env row row ∷ [])
new_action_performs_example =
    new_action_performs env no_answer nobody "t" "close_issue" "close-issue:t" end empty_store
      (ground (arith, eq_iff "close_issue" "pr_review")) no_row tt
