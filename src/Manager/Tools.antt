-- ===== src/Manager/Tools.antt =====
-- The tools of plugins that the code worker uses, in backend/maintainer/plugin_manager.py: `agent_tools`,
-- `set_agent_tools` and `enable_recommended_tools`, with the row of `Config` that holds the selection.
pub mod Selected
pub mod Tests
use maintune.Base.{
  ℕ, String, Bool, true, false, not, ◌||◌, Option, none, some, List, [], ◌∷◌, ◌++◌, all, filter,
  map, ltb, if◌then◌else◌, ◌==◌, string_eq, contains, dedup,
}
use maintune.Base.Dict.{lookup, insert}
use maintune.Base.Result.{ok, err, ◌>>=◌, ◌>>◌, raise_if}
use maintune.Json.{
  Value, str, list, Items, nil, cons, Fields, end, field, get, value_or_null, items, count_items,
}
use maintune.PluginApi.Schema.{texts_of}
use maintune.PluginApi.Registration.{ExtensionRegistration}
use maintune.PluginApi.Registry.{list_kind}
use maintune.Manager.State.{PluginManager, Managed}

-- f"plugin-tools:{agent_id}"
abbrev pub tools_id : String
tools_id = "plugin-tools:code_worker"

abbrev pub texts_in : Value → List String
texts_in (list xs) = texts_of (items xs)
texts_in v = []

-- `row.data.get("tools", [])`
abbrev pub selected_tools : PluginManager → List String
selected_tools m = elim (lookup tools_id m.config) [
  | none ↦ []
  | some row ↦ texts_in (value_or_null (get "tools" row))
]

abbrev pub all_tools : PluginManager → List ExtensionRegistration
all_tools m = list_kind (some "tool") m.registry

abbrev pub identifiers : List ExtensionRegistration → List String
identifiers rs = map (λ (r : ExtensionRegistration). r.identifier) rs

-- `agent_tools`
unfoldable pub agent_tools : String → PluginManager → List ExtensionRegistration
agent_tools agent_id m =
    if not (agent_id == "code_worker")
    then []
    else filter (λ r. contains (selected_tools m) r.identifier) (all_tools m)

abbrev pub text_items : List String → Items
text_items [] = nil
text_items (s ∷ ss) = cons (str s) (text_items ss)

abbrev pub is_available : List String → Value → Bool
is_available available (str s) = contains available s
is_available available v = false

abbrev pub store_tools : List String → PluginManager → PluginManager
store_tools selected m = record m {
  config = insert tools_id (field "tools" (list (text_items selected)) end) m.config;
}

-- `set_agent_tools`
unfoldable pub set_agent_tools :
    String → Value → PluginManager → Managed (PluginManager × List String)
set_agent_tools agent_id (list xs) m = do
  raise_if (not (agent_id == "code_worker") || ltb 64 (count_items xs))
      "Invalid Agent Tool selection"
  raise_if (not (all (is_available (identifiers (all_tools m))) (items xs)))
      "Selected Agent Tool is not available"
  let selected = dedup (texts_of (items xs))
  ok (store_tools selected m, selected)
set_agent_tools agent_id v m = err "Invalid Agent Tool selection"

-- One identifier for each time that a tool names the code worker.
abbrev pub recommendations : String → List String → List String
recommendations identifier [] = []
recommendations identifier (agent_id ∷ agent_ids) =
    let rest = recommendations identifier agent_ids in
    if agent_id == "code_worker" then identifier ∷ rest else rest

abbrev pub recommended : String → List ExtensionRegistration → List String
recommended plugin_id [] = []
recommended plugin_id (r ∷ rs) =
    let rest = recommended plugin_id rs in
    if r.plugin_id == plugin_id
    then recommendations r.identifier
        (texts_in (value_or_null (get "recommended_agents" r.metadata)))
      ++ rest
    else rest

-- The loop over `recommendations`, which has the one key "code_worker" where it has any.
unfoldable pub add_tools : List String → PluginManager → Managed (PluginManager × List String)
add_tools [] m = ok (m, [])
add_tools (id ∷ ids) m =
    set_agent_tools "code_worker"
      (list (text_items (identifiers (agent_tools "code_worker" m) ++ id ∷ ids))) m
    >>= λ done. ok (done.0, id ∷ ids)

-- `enable_recommended_tools`, with the list of `recommendations["code_worker"]`.
unfoldable pub enable_recommended_tools :
    String → PluginManager → Managed (PluginManager × List String)
enable_recommended_tools plugin_id m = add_tools (recommended plugin_id (all_tools m)) m
