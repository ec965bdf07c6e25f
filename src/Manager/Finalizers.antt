-- ===== src/Manager/Finalizers.antt =====
-- `PluginManager.finalize_task` of backend/maintainer/plugin_manager.py: the hooks `task.finally` are called with
-- an invocation id that is kept in a row of `Config` until the call succeeds.
pub mod Runs
use maintune.Base.{
  ℕ, String, ◌<>◌, Bool, true, false, not, ◌&&◌, ◌||◌, Option, none, some, List, [], ◌∷◌, ◌++◌,
  filter, take, max, if◌then◌else◌, ◌==◌, string_eq, contains,
}
use maintune.Base.Int.{pos}
use maintune.Base.Result.{Result, ok, err, ◌>>=◌}
use maintune.Base.Dict.{Dict, lookup, insert}
use maintune.Base.Text.{codes, starts_with, decimal, cut}
use maintune.Json.{Value, int, str, dict, Fields, end, field, get, truthy?}
use maintune.Store.{Db, Task, Env, get_task, add_event, to_text, or_else}
use maintune.Broker.{BrokerDb}
use maintune.PluginApi.Registration.{ExtensionRegistration}
use maintune.PluginApi.Registry.{PluginRegistry, list_kind}

-- What a call of a plugin comes to: an answer, or the type of the error that it raises.
pub data Outcome : Type 0 where
  answered : Value → Outcome
  failed : String → Outcome

-- `status in {"queued", "running"} or status.startswith("waiting_")`
abbrev pub is_open : String → Bool
is_open status =
    contains ("queued" ∷ "running" ∷ []) status || starts_with (codes status) (codes "waiting_")

abbrev attempt_of : Task → ℕ
attempt_of task = max task.attempts 1

-- `str(summary or error or "")[:8000]`
abbrev summary_of : Env → Fields → String
summary_of env content = elim (or_else (get "summary" content) (get "error" content)) [
  | none ↦ ""
  | some v ↦ if truthy? (some v) then cut 8000 (to_text env v) else ""
]

abbrev payload_of : Env → Task → Fields
payload_of env task = field "task_id" (str task.id) (
    field "status" (str task.status) (
      field "attempt" (int (pos (attempt_of task)))
        (field "summary" (str (summary_of env task.content)) end)))

abbrev pub row_id : String → ℕ → String → String
row_id task_id attempt plugin_id =
    "plugin-finalizer:" <> task_id <> ":" <> decimal attempt <> ":" <> plugin_id

abbrev pub row : String → String → Fields
row status invocation_id =
    field "status" (str status) (field "invocation_id" (str invocation_id) end)

abbrev pub failed_row : String → String → Fields
failed_row invocation_id error_type =
    field "status" (str "incomplete")
      (field "invocation_id" (str invocation_id) (field "error_type" (str error_type) end))

abbrev pub is_completed : Option Fields → Bool
is_completed none = false
is_completed (some data_of) = elim (get "status" data_of) [
  | none ↦ false
  | some v ↦ elim v [ str s ↦ s == "completed" | _ ↦ false ]
]

-- `(record.data.get("invocation_id") if record else None) or uuid.uuid4().hex`, of rows that hold a text there.
abbrev pub invocation_of : String → Option Fields → String
invocation_of new_id none = new_id
invocation_of new_id (some data_of) = elim (get "invocation_id" data_of) [
  | none ↦ new_id
  | some v ↦ elim v [ str s ↦ if s == "" then new_id else s | _ ↦ new_id ]
]

-- The first session for a hook: the store with the pending row, and the invocation id.
unfoldable pub begin_finalizer : String → String → BrokerDb → Option (BrokerDb × String)
begin_finalizer new_id id s =
    let invocation_id = invocation_of new_id (lookup id s.config) in
    if is_completed (lookup id s.config)
    then none
    else some
        (record s { config = insert id (row "pending" invocation_id) s.config }, invocation_id)

-- `db.get(Config, id).data = data`, which fails where the row is gone.
abbrev pub set_row : String → Fields → BrokerDb → Result String BrokerDb
set_row id data_of s = elim (lookup id s.config) [
  | none ↦ err "AttributeError"
  | some old ↦ ok (record s { config = insert id data_of s.config })
]

abbrev pub finalizer_event : String → String → Fields → Fields
finalizer_event plugin_id invocation_id rest =
    field "plugin_id" (str plugin_id) (field "invocation_id" (str invocation_id) rest)

abbrev pub noted : Env → String → String → Fields → BrokerDb → BrokerDb
noted env task_id kind data_of s = record s { db = add_event env task_id kind data_of s.db }

-- The session after the call.
unfoldable pub end_finalizer :
    Env → String → String → String → String → Outcome → BrokerDb → Result String BrokerDb
end_finalizer env task_id plugin_id id invocation_id (failed error_type) s = do
  left ← set_row id (failed_row invocation_id error_type) s
  ok (
      noted env task_id "plugin_finalizer_incomplete"
        (finalizer_event plugin_id invocation_id (field "error_type" (str error_type) end)) left)
end_finalizer env task_id plugin_id id invocation_id (answered v) s = do
  left ← set_row id (row "completed" invocation_id) s
  ok (
      noted env task_id "plugin_finalizer_completed" (finalizer_event plugin_id invocation_id end)
        left)

-- One round of the loop: the store, and the invocation id of the call if there was one. `others` is what other
-- sessions do to the store during the call.
unfoldable pub finalize_one :
    Env
    → String
    → String
    → String
    → String
    → (String → Outcome)
    → (BrokerDb → BrokerDb)
    → BrokerDb
    → Result String (BrokerDb × Option String)
finalize_one env new_id task_id plugin_id id call others s = elim (begin_finalizer new_id id s) [
  | none ↦ ok (s, none)
  | some begun ↦ (do
    left ← end_finalizer env task_id plugin_id id begun.1 (call begun.1) (others begun.0)
    ok (left, some begun.1))
]

module _ (env : Env) (new_ids : String → String)
    (invoker : ExtensionRegistration → Fields → String → Outcome)
    (others : BrokerDb → BrokerDb) where
  unfoldable pub finalize_all :
      Task → List ExtensionRegistration → BrokerDb → Result String (BrokerDb × List String)
  unfolding finalize_one
  finalize_all task [] s = ok (s, [])
  finalize_all task (r ∷ rs) s = do
    one ←
        finalize_one env (new_ids r.plugin_id) task.id r.plugin_id
          (row_id task.id (attempt_of task) r.plugin_id) (invoker r (payload_of env task)) others s
    rest ← finalize_all task rs one.0
    ok (rest.0, (elim one.1 [ none ↦ [] | some id ↦ id ∷ [] ]) ++ rest.1)

  -- `finalize_task`
  unfoldable pub finalize_task :
      String → PluginRegistry → BrokerDb → Result String (BrokerDb × List String)
  unfolding finalize_all
  finalize_task task_id g s = elim (get_task task_id s.db) [
    | none ↦ ok (s, [])
    | some task ↦
        if is_open task.status
        then ok (s, [])
        else finalize_all task (filter (λ r. r.name == "task.finally") (list_kind (some "hook") g))
            s
  ]
