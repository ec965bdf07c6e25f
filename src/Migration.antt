-- ===== src/Migration.antt =====
-- `migrate` of backend/maintainer/db.py, on the data of the rows that it rewrites and its ledger. The tables
-- that it creates and the times that it writes are left out.
pub mod Again
pub mod Tests
use maintune.Base.{
  ℕ, String, Bool, true, false, ◌||◌, Option, none, some, List, [], ◌∷◌, ltb, if◌then◌else◌,
  string_eq, nat_eq,
}
use maintune.Base.Int.{pos}
use maintune.Base.Result.{Result, ok, err, ◌>>=◌}
use maintune.Json.{
  Value, null, bool, int, str, list, dict, Items, nil, cons, Fields, end, field, get, put, without,
  has_key,
}

pub record MigrationDb : Type 0 where
  pub version : ℕ
  pub providers : List (String × Fields)
  pub general : Option Fields
  pub agents : List (String × Fields)

abbrev pub model_of : Value → Value
model_of (str id) = dict (
    field "id" (str id) (
      field "display_name" null (
        field "enabled" (bool true)
          (field "capabilities" (dict end) (field "defaults" (dict end) end)))))
model_of v = v

abbrev pub models_of : Items → Items
models_of nil = nil
models_of (cons v vs) = cons (model_of v) (models_of vs)

-- What `for item in models` goes through: the characters of a text and the keys of a dict too.
abbrev pub characters : String → Items
characters String.[] = nil
characters (String.◌∷◌ c s) = cons (str (String.◌∷◌ c String.[])) (characters s)

abbrev pub keys_of : Fields → Items
keys_of end = nil
keys_of (field k v fs) = cons (str k) (keys_of fs)

abbrev pub iterated : Value → Result String Items
iterated (list xs) = ok xs
iterated (str s) = ok (characters s)
iterated (dict fs) = ok (keys_of fs)
iterated _ = err "TypeError"

abbrev pub is_text : Value → Bool
is_text (str s) = true
is_text _ = false

-- `any(isinstance(item, str) for item in models)`
abbrev pub has_text : Items → Bool
has_text nil = false
has_text (cons v vs) = is_text v || has_text vs

abbrev pub rewritten : Items → Fields → Fields
rewritten xs data_of = if has_text xs then put "models" (list (models_of xs)) data_of else data_of

unfoldable pub migrate_provider : Fields → Result String Fields
migrate_provider data_of = elim (get "models" data_of) [
  | none ↦ ok data_of
  | some v ↦ iterated v >>= λ xs. ok (rewritten xs data_of)
]

-- `data.pop(key, None)` where `None` counts as missing.
abbrev pub given : Option Value → Option Value
given none = none
given (some null) = none
given (some v) = some v

abbrev pub fixed_steps : Value → Value
fixed_steps n = dict (
    field "mode" (str "fixed") (
      field "fixed_steps" n (
        field "soft_limit" n (
          field "hard_limit" n
            (field "extension" (int (pos 20)) (field "loop_threshold" (int (pos 3)) end))))))

abbrev pub timeouts : Value → Value
timeouts n = dict (
    field "model_request" n
      (field "tool_call" n (field "agent_task" n (field "sandbox_ttl" (int (pos 3600)) end))))

-- `data[key] = f(old)` where there is an old value and no new one.
abbrev pub replace_old : String → (Value → Value) → Option Value → Fields → Fields
replace_old key f none data_of = data_of
replace_old key f (some old) data_of =
    if has_key key data_of then data_of else put key (f old) data_of

-- `data.setdefault(key, {})`
abbrev pub set_default : String → Fields → Fields
set_default key data_of = if has_key key data_of then data_of else put key (dict end) data_of

unfoldable pub migrate_general : Fields → Fields
migrate_general old =
    let left = without ("max_steps" ∷ "timeout" ∷ []) old in
    let steps = replace_old "steps" fixed_steps (given (get "max_steps" old)) left in
    let timed = replace_old "timeouts" timeouts (given (get "timeout" old)) steps in
    set_default "generation" (set_default "reasoning" timed)

unfoldable pub migrate_agent : Fields → Fields
migrate_agent data_of = set_default "runtime" data_of

abbrev pub each_row : (Fields → Fields) → List (String × Fields) → List (String × Fields)
each_row f [] = []
each_row f ((id, data_of) ∷ rows) = (id, f data_of) ∷ each_row f rows

abbrev pub migrate_optional : Option Fields → Option Fields
migrate_optional none = none
migrate_optional (some g) = some (migrate_general g)

-- The loop over the providers, which an error leaves.
abbrev pub each_provider : List (String × Fields) → Result String (List (String × Fields))
each_provider [] = ok []
each_provider ((id, data_of) ∷ rows) = do
  new ← migrate_provider data_of
  rest ← each_provider rows
  ok ((id, new) ∷ rest)

-- The transaction of version 3.
unfoldable pub migrate_json : MigrationDb → Result String MigrationDb
migrate_json db = do
  providers ← each_provider db.providers
  ok (record db {
    version = 3;
    providers = providers;
    general = migrate_optional db.general;
    agents = each_row migrate_agent db.agents;
  })

abbrev pub second : MigrationDb → MigrationDb
second db = record db { version = if ltb db.version 2 then 2 else db.version }

abbrev pub fourth : MigrationDb → MigrationDb
fourth db = record db { version = if ltb db.version 4 then 4 else db.version }

-- `migrate`: the transactions after the version that the ledger has. An error rolls the one of version 3 back.
unfoldable pub migrate : MigrationDb → MigrationDb × Option String
unfolding migrate_json
migrate db =
    if ltb (second db).version 3
    then elim (migrate_json (second db)) [
      | err e ↦ (second db, some e)
      | ok new ↦ (fourth new, none)
    ]
    else (fourth (second db), none)
