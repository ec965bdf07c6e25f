-- ===== src/PluginApi/Registry.antt =====
-- `PluginRegistry` of backend/maintainer/plugin_api_v2.py without the calls of plugins. The items of
-- the dict are kept in its order; the key of an item, (plugin id, "kind:name"), is read off the item.
pub mod Orders
pub mod Contents
use maintune.Base.{
  ℕ, suc, ◌+◌, String, ◌<>◌, Bool, true, false, not, ◌&&◌, ◌||◌, Option, none, some, List, [], ◌∷◌,
  ◌++◌, any, filter, ltb, leb, length, if◌then◌else◌, ◌==◌, string_eq, nat_eq, contains,
}
use maintune.Base.Result.{Result, ok, err, ◌>>=◌, ◌>>◌}
use maintune.Base.Unicode.{Unicode}
use maintune.Json.{Value, list, str, Items, nil, Fields, get, items, count_items}
use maintune.PluginApi.Schema.{texts_of}
use maintune.PluginApi.Registration.{
  ExtensionRegistration, Registering, plugin_registration_error, reject_if, parse_registration,
  check_metadata,
}

pub record PluginRegistry : Type 0 where
  pub entries : List ExtensionRegistration
  pub next_order : ℕ

abbrev pub empty_registry : PluginRegistry
empty_registry = record { entries = []; next_order = 0 }

-- f"{kind}:{name}"
abbrev pub key_of : ExtensionRegistration → String
key_of r = r.kind <> ":" <> r.name

abbrev pub same_key : ExtensionRegistration → ExtensionRegistration → Bool
same_key a b = a.plugin_id == b.plugin_id && key_of a == key_of b

-- `self._items[key] = registration`
unfoldable pub put_entry :
    ExtensionRegistration → List ExtensionRegistration → List ExtensionRegistration
put_entry r [] = r ∷ []
put_entry r (q ∷ qs) = if same_key q r then r ∷ qs else q ∷ put_entry r qs

-- The second loop of `register_plugin`.
unfoldable pub commit :
    List ExtensionRegistration → PluginRegistry → PluginRegistry × List ExtensionRegistration
commit [] g = (g, [])
commit (item ∷ parsed) g =
    let order = g.next_order + 1 in
    let r = record item { load_order = order } in
    let (g', rest) =
      commit parsed (record { entries = put_entry r g.entries; next_order = order }) in
    (g', r ∷ rest)

-- `unregister_plugin`
unfoldable pub unregister_plugin : String → PluginRegistry → PluginRegistry
unregister_plugin plugin_id g = record g {
  entries = filter (λ r. not (r.plugin_id == plugin_id)) g.entries;
}

insert_sorted : ExtensionRegistration → List ExtensionRegistration → List ExtensionRegistration
insert_sorted r [] = r ∷ []
insert_sorted r (q ∷ qs) =
    if leb r.load_order q.load_order then r ∷ q ∷ qs else q ∷ insert_sorted r qs

-- `sorted(..., key=lambda item: item.load_order)`
unfoldable pub sort_entries : List ExtensionRegistration → List ExtensionRegistration
unfolding insert_sorted
sort_entries [] = []
sort_entries (r ∷ rs) = insert_sorted r (sort_entries rs)

abbrev pub has_kind : Option String → ExtensionRegistration → Bool
has_kind none r = true
has_kind (some kind) r = r.kind == kind

-- `list(kind)`
unfoldable pub list_kind : Option String → PluginRegistry → List ExtensionRegistration
unfolding sort_entries
list_kind kind g = sort_entries (filter (has_kind kind) g.entries)

abbrev items_of : Option Value → Items
items_of (some (list xs)) = xs
items_of v = nil

unfoldable pub only_one : List ExtensionRegistration → Registering ExtensionRegistration
only_one (r ∷ []) = ok r
only_one rs = err (plugin_registration_error "Extension is not registered")

-- `get(identifier, kind)`
unfoldable pub get_registration :
    String → Option String → PluginRegistry → Registering ExtensionRegistration
get_registration identifier kind g =
    only_one (filter (λ r. r.identifier == identifier && has_kind kind r) g.entries)

abbrev recommended_of : ExtensionRegistration → List String
recommended_of r = texts_of (items (items_of (get "recommended_agents" r.metadata)))

-- `recommended_tools(agent_id)`
unfoldable pub recommended_tools : String → PluginRegistry → List ExtensionRegistration
unfolding list_kind
recommended_tools agent_id g =
    filter (λ r. contains (recommended_of r) agent_id) (list_kind (some "tool") g)

-- The load order -1 of an item that is not stored yet is 0 here; `commit` replaces it.
abbrev pub staged_item : String → String → String → Fields → ExtensionRegistration
staged_item plugin_id kind name metadata = record {
  plugin_id = plugin_id;
  kind = kind;
  name = name;
  identifier = plugin_id <> "/" <> name;
  load_order = 0;
  metadata = metadata;
}

module _ (u : Unicode) (hooks : List String) where
  -- The first loop of `register_plugin`, over the values that are left, with what is staged.
  unfoldable pub parse_all :
      String → List Value → List ExtensionRegistration → Registering (List ExtensionRegistration)
  parse_all plugin_id [] staged = ok []
  parse_all plugin_id (value ∷ values) staged =
      parse_registration u hooks value >>= λ (kind, name, metadata).
      let item = staged_item plugin_id kind name metadata in
      reject_if (any (same_key item) staged) "Duplicate extension registration"
      >> check_metadata u hooks kind name metadata
      >> (parse_all plugin_id values (item ∷ staged) >>= λ rest. ok (item ∷ rest))

  -- `register_plugin`: nothing is stored if a value is refused.
  unfoldable pub register_plugin :
      String → Value → PluginRegistry → Registering (PluginRegistry × List ExtensionRegistration)
  unfolding parse_all commit
  register_plugin plugin_id (list values) g = do
    reject_if (ltb 256 (count_items values)) "Plugin registration list is invalid"
    parsed ← parse_all plugin_id (items values) []
    ok (commit parsed g)
  register_plugin plugin_id v g = reject_if true "Plugin registration list is invalid" >> ok (g, [])
