-- ===== src/Broker/Tests.antt =====
-- Runs of a plugin's decisions, and their theorems at concrete data.
use maintune.Base.{
  ◌≡◌, ◌≢◌, refl, String, contains, true, some, none, List, [], ◌∷◌, string_eq, nat_eq,
}
use maintune.Base.Int.{pos}
use maintune.Base.Text.{Text, codes}
use maintune.Base.Result.{Result, ok, err}
use maintune.Base.Unicode.{ascii}
use maintune.Json.{int, str, Fields, end, field}
use maintune.Store.{Task, Env, find_first}
use maintune.Policy.Owner.{owner_action, owner_actions}
use maintune.Broker
use maintune.Broker.{
  BrokerDb, param, owner_decision, submit, resolve_task, is_replay_key, short_task_reference,
  shorten, safe_data, is_sensitive_key,
}
use maintune.Broker.Replay.{owner_decision_kept, owner_decision_once}
use maintune.Broker.References.{IsReferenceTo, short_task_reference-IsReferenceTo}

abbrev env : Env
env = record { now = int (pos 50); new_id = "n"; payload_hash = λ v. "h"; repr = λ v. "" }

abbrev same : String → String
same s = s

abbrev waiting : Task
waiting = record {
  id = "0123456789";
  kind = "issue";
  repository = "o/r";
  number = 4;
  status = "waiting_for_owner";
  lease_until = none;
  attempts = 1;
  content = end;
}

abbrev store : BrokerDb
store = record {
  db = record { tasks = waiting ∷ []; outbox = []; repositories = []; timeline = [] };
  config = [];
}

abbrev params : Fields
params =
    field "task_id" (str "01234567")
      (field "decision" (str "reject") (field "replay_key" (str "once-only-1") end))

abbrev result_or : Result String (BrokerDb × String) → BrokerDb × String
result_or (ok r) = r
result_or (err e) = (store, e)

abbrev outcome : BrokerDb × String
outcome = result_or (owner_decision ascii env same "p" "submit" params store)

is_decided : owner_decision ascii env same "p" "submit" params store ≡ ok (outcome.0, "reject")
unfolding owner_decision submit resolve_task is_replay_key Broker.is_reference owner_action
    find_first string_eq nat_eq
is_decided = refl

owner_decision_kept_example :
    ("reject" ≡ param env "decision" params)
    × (contains owner_actions "reject" ≡ true)
    × (owner_action ascii (codes "/approve") (some "reject") ≡ "reject")
owner_decision_kept_example =
    owner_decision_kept ascii env same "p" "submit" params store outcome.0 "reject"
      (codes "/approve") is_decided

-- Another time.
abbrev later : Env
later = record env { now = str "later" }

owner_decision_once_example :
    owner_decision ascii later same "p" "submit" params outcome.0 ≢ ok (store, "reject")
owner_decision_once_example =
    owner_decision_once ascii env later same "p" "submit" "submit" params params store outcome.0
      "reject" (store, "reject") is_decided refl

abbrev ids : List Text
ids = codes "0123456789" ∷ codes "012345678a" ∷ []

short_one : short_task_reference (codes "0123456789") ids ≡ codes "0123456789"
unfolding short_task_reference shorten nat_eq
short_one = refl

short_task_reference-IsReferenceTo_example :
    IsReferenceTo (codes "0123456789") ids (short_task_reference (codes "0123456789") ids)
short_task_reference-IsReferenceTo_example =
    short_task_reference-IsReferenceTo (codes "0123456789") ids

abbrev event_data : Fields
event_data = field "API_Token" (str "x") (field "status" (str "ok") end)
