-- ===== src/PluginApi/Registry/Contents.antt =====
-- What the registry holds after `register_plugin` and `unregister_plugin`.
use maintune.Base.{
  ◌+◌, ◌≡◌, refl, ap, sym, ◌∙◌, String, true, not, List, [], ◌∷◌, arith, All, any, filter, ltb,
  ◌==◌, string_eq,
}
use mathlib.Core.Path.{subst}
use maintune.Base.Result.{ok, err, ◌>>=◌, ◌>>◌, >>=-eq-ok, >>-eq-ok, ok-injective}
use maintune.Base.Unicode.{Unicode}
use maintune.Json.{Value, list, Fields, get, items, count_items}
use maintune.PluginApi.Schema.{Checked, validate_schema}
use maintune.PluginApi.Registration.{
  ExtensionRegistration, Registering, reject_if, parse_registration, check_metadata, check_tool,
  or_null, schema_ok,
}
use maintune.PluginApi.Registry.{
  PluginRegistry, same_key, staged_item, put_entry, commit, unregister_plugin, parse_all,
  register_plugin,
}
use maintune.PluginApi.Registry.Orders.{
  IsOrdered, All-put_entry, All-filter, commit-IsOrdered, unregister_plugin-IsOrdered,
}

ok-first :
    (r : PluginRegistry × List ExtensionRegistration) (g : PluginRegistry)
    (added : List ExtensionRegistration)
    → ◌≡◌ {A = Registering (PluginRegistry × List ExtensionRegistration)} (ok r) (ok (g, added))
    → r.0 ≡ g
ok-first r g added e = cc

-- The entries of other plugins.
abbrev others : String → List ExtensionRegistration → List ExtensionRegistration
others plugin_id es = filter (λ r. not (r.plugin_id == plugin_id)) es

others-put_entry :
    (p : String) (r : ExtensionRegistration) (es : List ExtensionRegistration)
    → r.plugin_id ≡ p
    → others p (put_entry r es) ≡ others p es
unfolding put_entry
others-put_entry p r [] e = ground arith
others-put_entry p r (q ∷ qs) e = ground (arith, others-put_entry p r qs e)

others-commit :
    (p : String) (parsed : List ExtensionRegistration) (g : PluginRegistry)
    → All (λ r. r.plugin_id ≡ p) parsed
    → others p (commit parsed g).0.entries ≡ others p g.entries
unfolding commit
others-commit p [] g all = refl
others-commit p (item ∷ parsed) g all =
    let r : ExtensionRegistration = record item { load_order = g.next_order + 1 } in
    others-commit p parsed
      (record { entries = put_entry r g.entries; next_order = g.next_order + 1 }) all.1
    ∙ others-put_entry p r g.entries all.0

module _ (u : Unicode) (hooks : List String) where
  abbrev pub IsChecked : ExtensionRegistration → Type 0
  IsChecked r = check_metadata u hooks r.kind r.name r.metadata ≡ ok tt

  -- The orders and keys are distinct, and each entry passed the checks of its kind.
  pub record IsValid (g : PluginRegistry) : Type 0 where
    pub ordered : IsOrdered g
    pub checked : All IsChecked g.entries

  parse_all-items :
      (plugin_id : String) (values : List Value) (staged parsed : List ExtensionRegistration)
      → parse_all u hooks plugin_id values staged ≡ ok parsed
      → All (λ r. (r.plugin_id ≡ plugin_id) × IsChecked r) parsed
  unfolding parse_all
  parse_all-items p [] staged [] h = tt
  parse_all-items p [] staged (r ∷ rs) h = cc
  parse_all-items p (v ∷ vs) staged parsed h =
      let found = >>=-eq-ok (parse_registration u hooks v) _ h in
      let (kind, name, metadata) = found.0 in
      let r = staged_item p kind name metadata in
      let rest = parse_all u hooks p vs (r ∷ staged) >>= λ more. ok (r ∷ more) in
      let fresh = reject_if (any (same_key r) staged) "Duplicate extension registration" in
      let checked = check_metadata u hooks kind name metadata in
      let both = >>-eq-ok (fresh >> checked) rest found.2 in
      let more = >>=-eq-ok (parse_all u hooks p vs (r ∷ staged)) (λ more. ok (r ∷ more)) both.1 in
      subst (All (λ q. (q.plugin_id ≡ p) × IsChecked q)) (ok-injective (r ∷ more.0) parsed more.2)
        ((refl, (>>-eq-ok fresh checked both.0).1), parse_all-items p vs (r ∷ staged) more.0 more.1)

  commit-IsChecked :
      (parsed : List ExtensionRegistration) (g : PluginRegistry)
      → All IsChecked parsed
      → All IsChecked g.entries
      → All IsChecked (commit parsed g).0.entries
  unfolding commit
  commit-IsChecked [] g new old = old
  commit-IsChecked (item ∷ parsed) g new old =
      let r : ExtensionRegistration = record item { load_order = g.next_order + 1 } in
      commit-IsChecked parsed
        (record { entries = put_entry r g.entries; next_order = g.next_order + 1 }) new.1
        (All-put_entry r IsChecked g.entries new.0 old)

  pub register_plugin-parts :
      (plugin_id : String) (values : Value) (g g' : PluginRegistry)
      (added : List ExtensionRegistration)
      → register_plugin u hooks plugin_id values g ≡ ok (g', added)
      → (parsed : List ExtensionRegistration) × All
          (λ r. (r.plugin_id ≡ plugin_id) × IsChecked r)
          parsed
        × ((commit parsed g).0 ≡ g')
  unfolding register_plugin
  register_plugin-parts p (list vs) g g' added h =
      let all = >>-eq-ok (reject_if (ltb 256 (count_items vs)) _) _ h in
      let found =
        >>=-eq-ok (parse_all u hooks p (items vs) []) (λ parsed. ok (commit parsed g)) all.1 in
      (
        found.0,
        parse_all-items p (items vs) [] found.0 found.1,
        ok-first (commit found.0 g) g' added found.2,
      )
  register_plugin-parts p v g g' added h = cc

  pub All-first :
      (P Q : ExtensionRegistration → Type 0) (es : List ExtensionRegistration)
      → All (λ r. P r × Q r) es
      → All P es × All Q es
  All-first P Q [] all = (tt, tt)
  All-first P Q (e ∷ es) all = ground (arith, All-first P Q es all.1)

  -- A successful registration keeps the registry valid: the load orders and the keys stay distinct,
  -- and each entry, the new ones included, passed the checks of its kind.
  pub register_plugin-IsValid :
      (plugin_id : String) (values : Value) (g g' : PluginRegistry)
      (added : List ExtensionRegistration)
      → IsValid g
      → register_plugin u hooks plugin_id values g ≡ ok (g', added)
      → IsValid g'
  register_plugin-IsValid p values g g' added valid h =
      let (parsed, all, same) = register_plugin-parts p values g g' added h in
      let both = All-first (λ r. r.plugin_id ≡ p) IsChecked parsed all in
      subst IsValid same (record {
        ordered = commit-IsOrdered parsed g valid.ordered;
        checked = commit-IsChecked parsed g both.1 valid.checked;
      })

  pub unregister_plugin-IsValid :
      (plugin_id : String) (g : PluginRegistry)
      → IsValid g
      → IsValid (unregister_plugin plugin_id g)
  unfolding unregister_plugin
  unregister_plugin-IsValid p g valid = record {
    ordered = unregister_plugin-IsOrdered p g valid.ordered;
    checked = All-filter _ IsChecked g.entries valid.checked;
  }

  -- To unregister a plugin that just registered leaves the entries that unregistering it before
  -- would have left, in the same order: the entries of other plugins are untouched.
  pub unregister_plugin-register_plugin :
      (plugin_id : String) (values : Value) (g g' : PluginRegistry)
      (added : List ExtensionRegistration)
      → register_plugin u hooks plugin_id values g ≡ ok (g', added)
      → (unregister_plugin plugin_id g').entries ≡ (unregister_plugin plugin_id g).entries
  unfolding unregister_plugin
  unregister_plugin-register_plugin p values g g' added h =
      let (parsed, all, same) = register_plugin-parts p values g g' added h in
      let both = All-first (λ r. r.plugin_id ≡ p) IsChecked parsed all in
      ap (λ (x : PluginRegistry). others p x.entries) (sym same) ∙ others-commit p parsed g both.0

  check_metadata-tool :
      (name : String) (metadata : Fields)
      → check_metadata u hooks "tool" name metadata ≡ check_tool u hooks metadata
  unfolding check_metadata string_eq
  check_metadata-tool name metadata = refl

  schema_ok_inv : (c : Checked) → schema_ok c ≡ ok tt → c ≡ ok tt
  schema_ok_inv (ok u) h = refl
  schema_ok_inv (err e) h = cc

  -- A tool that passed the checks has a valid object schema for its input.
  pub tool_schema :
      (r : ExtensionRegistration)
      → IsChecked r
      → r.kind ≡ "tool"
      → validate_schema (or_null (get "input_schema" r.metadata)) true ≡ ok tt
  unfolding check_tool
  tool_schema r h k =
      let checked : check_tool u hooks r.metadata ≡ ok tt =
        sym (check_metadata-tool r.name r.metadata)
        ∙ subst (λ x. check_metadata u hooks x r.name r.metadata ≡ ok tt) k h in
      schema_ok_inv _
        (>>-eq-ok (schema_ok (validate_schema (or_null (get "input_schema" r.metadata)) true)) _
          checked).0
