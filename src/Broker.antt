-- ===== src/Broker.antt =====
-- The writes of `PluginCapabilityBroker` and `make_event` of backend/maintainer/plugin_system.py: what a
-- plugin may decide in the owner's place, and what an event tells a plugin.
pub mod Replay
pub mod References
pub mod Tests
use maintune.Base.{
  ℕ, zero, suc, String, ◌<>◌, Bool, true, false, not, ◌&&◌, ◌||◌, Option, none, some, List, [], ◌∷◌,
  ◌++◌, all, any, filter, length, leb, min, if◌then◌else◌, ◌==◌, string_eq, nat_eq, contains, take,
}
use maintune.Base.Int.{pos}
use maintune.Base.Dict.{Dict, lookup, insert}
use maintune.Base.Result.{Result, ok, err, ◌>>=◌, ◌>>◌, raise_if}
use maintune.Base.Text.{Text, codes, starts_with, has_substring}
use maintune.Base.Unicode.{Unicode, lower}
use maintune.Json.{Value, str, Fields, end, field, get, put}
use maintune.Store.{
  Db, Task, Env, Timeline, get_task, set_task, add_event, find_first, update_where, to_text,
}
use maintune.Policy.Owner.{owner_action, owner_actions}

-- The rows of `Config` by their id, beside the other tables.
pub record BrokerDb : Type 0 where
  pub db : Db
  pub config : Dict Fields

-- `str(params.get(key, ""))`
abbrev param : Env → String → Fields → String
param env key params = elim (get key params) [ none ↦ "" | some v ↦ to_text env v ]

abbrev in_ranges : List (ℕ × ℕ) → ℕ → Bool
in_ranges [] c = false
in_ranges ((low, high) ∷ rs) c = leb low c && leb c high || in_ranges rs c

abbrev sized : ℕ → ℕ → (ℕ → Bool) → String → Bool
sized low high p s = let t = codes s in leb low (length t) && leb (length t) high && all p t

-- [a-f0-9-]{8,36}
unfoldable pub is_reference : String → Bool
is_reference s = sized 8 36 (in_ranges ((97, 102) ∷ (48, 57) ∷ (45, 45) ∷ [])) s

-- [A-Za-z0-9_.:-]{8,200}
unfoldable pub is_replay_key : String → Bool
is_replay_key s =
    sized 8 200
      (in_ranges ((65, 90) ∷ (97, 122) ∷ (48, 57) ∷ (95, 95) ∷ (46, 46) ∷ (58, 58) ∷ (45, 45) ∷ []))
      s

abbrev begins_with : String → Task → Bool
begins_with reference t = starts_with (codes t.id) (codes reference)

only_task : List Task → Result String Task
only_task [] = err "Task not found"
only_task (t ∷ []) = ok t
only_task (t ∷ u ∷ ts) = err "Task reference is ambiguous"

-- `_resolve_task`
unfoldable pub resolve_task : String → Db → Result String Task
unfolding only_task
resolve_task reference db = elim (get_task reference db) [
  | some exact ↦ ok exact
  | none ↦
      raise_if (not (is_reference reference)) "Task not found"
      >> only_task (filter (begins_with reference) db.tasks)
]

abbrev pub with_prefix : Text → List Text → ℕ
with_prefix candidate ids = length (filter (λ id. starts_with id candidate) ids)

unfoldable pub shorten : ℕ → ℕ → Text → List Text → Text
shorten zero n id ids = id
shorten (suc left) n id ids =
    let longer = shorten left (suc n) id ids in
    if with_prefix (take n id) ids == 1 then take n id else longer

-- `_short_task_reference`, on texts: the lengths from the minimum to that of the id are tried.
unfoldable pub short_task_reference : Text → List Text → Text
short_task_reference id ids = shorten (suc (length id)) (min 8 (length id)) id ids

module _ (u : Unicode) (env : Env) (sha256 : String → String) (plugin_id : String) where
  abbrev pub replay_id : String → String
  replay_id replay_key = "plugin-replay:" <> plugin_id <> ":" <> sha256 replay_key

  abbrev decided : String → Fields → Fields
  decided action content = put "owner_decision_source" (str plugin_id) (
      put "owner_decision_action" (str action)
        (put "owner_decision" (str ("Plugin decision: " <> action)) content))

  -- The session of a decision that is well formed.
  unfoldable pub submit : String → String → String → BrokerDb → Result String (BrokerDb × String)
  submit task_id decision key s = do
    raise_if (elim (lookup (replay_id key) s.config) [ none ↦ false | some row ↦ true ])
        "Owner decision replay rejected"
    task ← resolve_task task_id s.db
    raise_if (not (task.status == "waiting_for_owner")) "Task is not waiting for owner"
    let action = owner_action u (codes decision) (some decision)
    let event = field "action" (str action) (field "source" (str plugin_id) end)
    let row =
        field "created" env.now (field "task_id" (str task.id) (field "action" (str action) end))
    ok (
      record {
        db = add_event env task.id "owner_decision" event (
            set_task task.id
              (λ t. record t { status = "queued"; content = decided action t.content }) s.db);
        config = insert (replay_id key) row s.config;
      },
      action,
    )

  -- `_owner_decision`
  unfoldable pub owner_decision : String → Fields → BrokerDb → Result String (BrokerDb × String)
  owner_decision action params s = do
    raise_if (not (action == "submit")) "Unsupported owner_decision.submit action"
    let decision = param env "decision" params
    let key = param env "replay_key" params
    raise_if (not (contains owner_actions decision && is_replay_key key)) "Invalid owner decision"
    submit (param env "task_id" params) decision key s

-- The words that a key of the data of an event must not contain.
abbrev secret_words : List Text
secret_words =
    codes "secret"
    ∷ codes "token"
    ∷ codes "password"
    ∷ codes "prompt"
    ∷ codes "private_key"
    ∷ codes "credential"
    ∷ []

abbrev pub is_sensitive_key : Unicode → String → Bool
is_sensitive_key u key = any (has_substring (lower u (codes key))) secret_words

-- The data of `make_event`.
unfoldable pub safe_data : Unicode → Fields → Fields
safe_data u end = end
safe_data u (field k v fs) =
    let rest = safe_data u fs in if is_sensitive_key u k then rest else field k v rest
