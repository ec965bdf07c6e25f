-- ===== src/Manager/Tools/Selected.antt =====
-- What a selection of tools comes to.
use maintune.Base.{
  ◌≡◌, refl, String, Bool, true, not, ◌||◌, ◌&&◌, List, [], ◌∷◌, ◌++◌, all, filter, ltb, arith,
  ◌==◌, string_eq, contains, dedup, dedup_from, Bool-cases, inl, inr, ◌∙◌, ap, sym,
}
use maintune.Base.Dict.{lookup-insert}
use maintune.Base.Result.{ok, ◌>>◌, raise_if, >>=-eq-ok, >>-eq-ok, ok-injective}
use maintune.Json.{Value, list, get, value_or_null, field, end, items, count_items}
use maintune.PluginApi.Schema.{texts_of}
use maintune.PluginApi.Registration.{ExtensionRegistration}
use maintune.PluginApi.Registry.{list_kind}
use maintune.Manager.State.{PluginManager, Managed}
use maintune.Manager.Tools.{
  is_available, tools_id, texts_in, selected_tools, all_tools, identifiers, agent_tools, text_items,
  store_tools, set_agent_tools, recommended, recommendations, add_tools, enable_recommended_tools,
}

contains-++ :
    (xs ys : List String) (x : String) → contains (xs ++ ys) x ≡ (contains xs x || contains ys x)
contains-++ [] ys x = refl
contains-++ (z ∷ xs) ys x = ground (arith, contains-++ xs ys x)

contains-dedup_from :
    (seen xs : List String) (x : String)
    → (contains seen x || contains (dedup_from seen xs) x) ≡ (contains seen x || contains xs x)
contains-dedup_from seen [] x = refl
contains-dedup_from seen (y ∷ ys) x = elim (Bool-cases (contains seen y)) [
  | inl known ↦ rw (dedup_from, known) (ground (arith, contains-dedup_from seen ys x))
  | inr fresh ↦ rw (dedup_from, fresh) (ground (arith, contains-dedup_from (y ∷ seen) ys x))
]

texts_of-text_items : (ss : List String) → texts_of (items (text_items ss)) ≡ ss
texts_of-text_items [] = refl
texts_of-text_items (s ∷ ss) = ap (λ rest. s ∷ rest) (texts_of-text_items ss)

filter-same :
    (p q : ExtensionRegistration → Bool) (rs : List ExtensionRegistration)
    → ((r : ExtensionRegistration) → p r ≡ q r)
    → filter p rs ≡ filter q rs
filter-same p q [] same = refl
filter-same p q (r ∷ rs) same = rw (same r, filter-same p q rs same) refl

contains-filter :
    (xs : List String) (rs : List ExtensionRegistration) (x : String)
    → contains (identifiers (filter (λ r. contains xs r.identifier) rs)) x
      ≡ (contains xs x && contains (identifiers rs) x)
contains-filter xs [] x = ground arith
contains-filter xs (r ∷ rs) x = ground (arith, contains-filter xs rs x)

selected_tools-store_tools :
    (selected : List String) (m : PluginManager)
    → selected_tools (store_tools selected m) ≡ selected
selected_tools-store_tools selected m = ground (
  arith,
  lookup-insert tools_id tools_id (field "tools" (list (text_items selected)) end) m.config,
  texts_of-text_items selected,
)

set_agent_tools-ok :
    (agent_id : String) (identifiers : Value) (m m' : PluginManager) (selected : List String)
    → set_agent_tools agent_id identifiers m ≡ ok (m', selected)
    → (agent_id ≡ "code_worker") × (store_tools (dedup (texts_in identifiers)) m ≡ m')
unfolding set_agent_tools
set_agent_tools-ok agent_id (list xs) m m' selected done =
    let selected' = dedup (texts_of (items xs)) in
    let available : Managed (Unit {0}) =
      raise_if (not (all (is_available (identifiers (all_tools m))) (items xs)))
        "Selected Agent Tool is not available" in
    let valid =
      >>-eq-ok
        (raise_if (not (agent_id == "code_worker") || ltb 64 (count_items xs))
          "Invalid Agent Tool selection")
        (available >> ok (store_tools selected' m, selected')) done in
    let found = >>-eq-ok available (ok (store_tools selected' m, selected')) valid.1 in
    let same = ok-injective (store_tools selected' m, selected') (m', selected) found.1 in
    (ground (arith, valid.0), ap (λ (pair : PluginManager × List String). pair.0) same)
set_agent_tools-ok agent_id v m m' selected done = cc

-- After a selection of tools is set, the code worker uses exactly the registered tools that the selection names.
pub agent_tools-set_agent_tools :
    (agent_id : String) (selection : Value) (m m' : PluginManager) (selected : List String)
    → set_agent_tools agent_id selection m ≡ ok (m', selected)
    → agent_tools agent_id m'
      ≡ filter (λ r. contains (texts_in selection) r.identifier) (all_tools m)
unfolding agent_tools string_eq list_kind
agent_tools-set_agent_tools agent_id selection m m' selected done =
    let (same, stored) = set_agent_tools-ok agent_id selection m m' selected done in
    let holds : (r : ExtensionRegistration)
        → contains (selected_tools (store_tools (dedup (texts_in selection)) m)) r.identifier
          ≡ contains (texts_in selection) r.identifier =
      λ r.
        ap (λ ids. contains ids r.identifier)
          (selected_tools-store_tools (dedup (texts_in selection)) m)
        ∙ contains-dedup_from [] (texts_in selection) r.identifier in
    rw (same, ← stored) (filter-same _ _ (all_tools m) holds)

agent_tools-identifiers :
    (m : PluginManager) (x : String)
    → contains (identifiers (agent_tools "code_worker" m)) x ≡ true
    → contains (identifiers (all_tools m)) x ≡ true
unfolding agent_tools string_eq list_kind
agent_tools-identifiers m x used =
    ground (arith, contains-filter (selected_tools m) (all_tools m) x)

-- What `enable_recommended_tools` hands to `set_agent_tools` is used afterwards.
after_selection :
    (ids : List String) (m m' : PluginManager) (selected : List String) (x : String)
    → set_agent_tools "code_worker" (list (text_items ids)) m ≡ ok (m', selected)
    → contains ids x ≡ true
    → contains (identifiers (all_tools m)) x ≡ true
    → contains (identifiers (agent_tools "code_worker" m')) x ≡ true
after_selection ids m m' selected x done chosen exists =
    ap (λ rs. contains (identifiers rs) x)
      (agent_tools-set_agent_tools "code_worker" (list (text_items ids)) m m' selected done)
    ∙ contains-filter (texts_of (items (text_items ids))) (all_tools m) x
    ∙ ground (arith, texts_of-text_items ids)

contains-recommendations :
    (identifier : String) (agent_ids : List String) (x : String)
    → contains (recommendations identifier agent_ids) x ≡ true
    → (x == identifier) ≡ true
contains-recommendations identifier [] x h = cc
contains-recommendations identifier (a ∷ agents) x h =
    ground (arith, contains-recommendations identifier agents x)

contains-recommended :
    (plugin_id : String) (rs : List ExtensionRegistration) (x : String)
    → contains (recommended plugin_id rs) x ≡ true
    → contains (identifiers rs) x ≡ true
contains-recommended plugin_id [] x h = cc
contains-recommended plugin_id (r ∷ rs) x h =
    let agents = texts_in (value_or_null (get "recommended_agents" r.metadata)) in
    ground (
      arith,
      contains-recommended plugin_id rs x,
      contains-recommendations r.identifier agents x,
      contains-++ (recommendations r.identifier agents) (recommended plugin_id rs) x,
    )

add_tools-used :
    (ids : List String) (m m' : PluginManager) (ids' : List String) (x : String)
    → add_tools ids m ≡ ok (m', ids')
    → (contains (identifiers (agent_tools "code_worker" m)) x || contains ids x) ≡ true
    → contains (identifiers (all_tools m)) x ≡ true
    → contains (identifiers (agent_tools "code_worker" m')) x ≡ true
unfolding add_tools
add_tools-used [] m m' ids' x done used exists =
    let same = ok-injective (m, []) (m', ids') done in
    ap
      (λ (pair : PluginManager × List String).
        contains (identifiers (agent_tools "code_worker" pair.0)) x)
      (sym same)
    ∙ ground (arith, used)
add_tools-used (id ∷ ids) m m' ids' x done used exists =
    let chosen = identifiers (agent_tools "code_worker" m) ++ id ∷ ids in
    let finish : PluginManager × List String → Managed (PluginManager × List String) =
      λ done. ok (done.0, id ∷ ids) in
    let (pair, set, returned) =
      >>=-eq-ok (set_agent_tools "code_worker" (list (text_items chosen)) m) finish done in
    let same = ok-injective (pair.0, id ∷ ids) (m', ids') returned in
    ap
      (λ (p : PluginManager × List String).
        contains (identifiers (agent_tools "code_worker" p.0)) x)
      (sym same)
    ∙ after_selection chosen m pair.0 pair.1 x set
        (contains-++ (identifiers (agent_tools "code_worker" m)) (id ∷ ids) x ∙ used) exists

-- When the recommended tools of a plugin are enabled, the code worker uses every tool that it used before and every
-- tool that the plugin recommends for it.
enable_recommended_tools-used :
    (plugin_id : String) (m m' : PluginManager) (ids : List String) (x : String)
    → enable_recommended_tools plugin_id m ≡ ok (m', ids)
    → (contains (identifiers (agent_tools "code_worker" m)) x
        || contains (recommended plugin_id (all_tools m)) x)
      ≡ true
    → contains (identifiers (agent_tools "code_worker" m')) x ≡ true
unfolding enable_recommended_tools list_kind
enable_recommended_tools-used plugin_id m m' ids x done used =
    add_tools-used (recommended plugin_id (all_tools m)) m m' ids x done used
      (ground (arith, agent_tools-identifiers m x, contains-recommended plugin_id (all_tools m) x))
