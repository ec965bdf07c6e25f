-- ===== src/PluginApi/Registry/Orders.antt =====
-- The load orders and the keys of the registry.
use maintune.Base.{
  ◌+◌, ◌≤◌, ◌<◌, ◌≡◌, ◌≢◌, String, Bool, true, false, Option, List, [], ◌∷◌, arith, All, filter,
  leb, string_eq, Bool-cases, inl, inr,
}
use maintune.PluginApi.Registration.{ExtensionRegistration}
use maintune.PluginApi.Registry.{
  PluginRegistry, same_key, put_entry, commit, unregister_plugin, sort_entries, insert_sorted,
  has_kind, list_kind,
}

abbrev pub DistinctOrders : List ExtensionRegistration → Type 0
DistinctOrders [] = Unit
DistinctOrders (r ∷ rs) = All (λ q. q.load_order ≢ r.load_order) rs × DistinctOrders rs

abbrev pub DistinctKeys : List ExtensionRegistration → Type 0
DistinctKeys [] = Unit
DistinctKeys (r ∷ rs) = All (λ q. same_key q r ≡ false) rs × DistinctKeys rs

-- No load order was given twice, none passes the counter, and no key is stored twice.
pub record IsOrdered (g : PluginRegistry) : Type 0 where
  pub below : All (λ r. r.load_order ≤ g.next_order) g.entries
  pub orders : DistinctOrders g.entries
  pub keys : DistinctKeys g.entries

module _ (r : ExtensionRegistration) where
  pub All-put_entry :
      (P : ExtensionRegistration → Type 0) (es : List ExtensionRegistration)
      → P r
      → All P es
      → All P (put_entry r es)
  unfolding put_entry
  All-put_entry P [] h all = (h, tt)
  All-put_entry P (q ∷ qs) h all = elim (Bool-cases (same_key q r)) [
    | inl same ↦ rw (same, put_entry) (h, all.1)
    | inr other ↦ rw (other, put_entry) (all.0, All-put_entry P qs h all.1)
  ]

  All-weaken :
      (P Q : ExtensionRegistration → Type 0) (es : List ExtensionRegistration)
      → ((q : ExtensionRegistration) → P q → Q q)
      → All P es
      → All Q es
  All-weaken P Q [] f all = tt
  All-weaken P Q (q ∷ qs) f all = (f q all.0, All-weaken P Q qs f all.1)

  DistinctOrders-put_entry :
      (es : List ExtensionRegistration)
      → All (λ q. q.load_order < r.load_order) es
      → DistinctOrders es
      → DistinctOrders (put_entry r es)
  unfolding put_entry
  DistinctOrders-put_entry [] small h = (tt, tt)
  DistinctOrders-put_entry (q ∷ qs) small h = elim (Bool-cases (same_key q r)) [
    | inl same ↦
        rw (same, put_entry)
          (All-weaken _ _ qs (λ x (lt : x.load_order < r.load_order) e. omega arith) small.1, h.1)
    | inr other ↦
        rw (other, put_entry)
          (
            All-put_entry (λ x. x.load_order ≢ q.load_order) qs (λ e. omega arith) h.0,
            DistinctOrders-put_entry qs small.1 h.1,
          )
  ]

  same_key-replace :
      (q x : ExtensionRegistration)
      → same_key q r ≡ true
      → same_key x q ≡ false
      → same_key x r ≡ false
  same_key-replace q x h k = ground arith

  same_key-flip : (q : ExtensionRegistration) → same_key q r ≡ false → same_key r q ≡ false
  same_key-flip q h = ground arith

  DistinctKeys-put_entry :
      (es : List ExtensionRegistration) → DistinctKeys es → DistinctKeys (put_entry r es)
  unfolding put_entry
  DistinctKeys-put_entry [] h = (tt, tt)
  DistinctKeys-put_entry (q ∷ qs) h = elim (Bool-cases (same_key q r)) [
    | inl same ↦ rw (same, put_entry) (All-weaken _ _ qs (λ x. same_key-replace q x same) h.0, h.1)
    | inr other ↦
        rw (other, put_entry)
          (
            All-put_entry (λ x. same_key x q ≡ false) qs (same_key-flip q other) h.0,
            DistinctKeys-put_entry qs h.1,
          )
  ]

-- Storing parsed items keeps the load orders distinct and up to the counter, and the keys distinct.
pub commit-IsOrdered :
    (parsed : List ExtensionRegistration) (g : PluginRegistry)
    → IsOrdered g
    → IsOrdered (commit parsed g).0
unfolding commit
commit-IsOrdered [] g h = h
commit-IsOrdered (item ∷ parsed) g h =
    let r : ExtensionRegistration = record item { load_order = g.next_order + 1 } in
    commit-IsOrdered parsed
      (record { entries = put_entry r g.entries; next_order = g.next_order + 1 })
      (record {
        below =
            All-put_entry r (λ q. q.load_order ≤ g.next_order + 1) g.entries (omega arith)
              (All-weaken r _ _ g.entries (λ q (le : q.load_order ≤ g.next_order). omega arith)
                h.below);
        orders =
            DistinctOrders-put_entry r g.entries
              (All-weaken r _ _ g.entries (λ q (le : q.load_order ≤ g.next_order). omega arith)
                h.below)
              h.orders;
        keys = DistinctKeys-put_entry r g.entries h.keys;
      })

module _ (p : ExtensionRegistration → Bool) where
  pub All-filter :
      (P : ExtensionRegistration → Type 0) (es : List ExtensionRegistration)
      → All P es
      → All P (filter p es)
  All-filter P [] all = tt
  All-filter P (q ∷ qs) all = elim (Bool-cases (p q)) [
    | inl keep ↦ rw keep (all.0, All-filter P qs all.1)
    | inr drop ↦ rw drop (All-filter P qs all.1)
  ]

  DistinctOrders-filter :
      (es : List ExtensionRegistration) → DistinctOrders es → DistinctOrders (filter p es)
  DistinctOrders-filter [] h = tt
  DistinctOrders-filter (q ∷ qs) h = elim (Bool-cases (p q)) [
    | inl keep ↦ rw keep (All-filter _ qs h.0, DistinctOrders-filter qs h.1)
    | inr drop ↦ rw drop (DistinctOrders-filter qs h.1)
  ]

  DistinctKeys-filter :
      (es : List ExtensionRegistration) → DistinctKeys es → DistinctKeys (filter p es)
  DistinctKeys-filter [] h = tt
  DistinctKeys-filter (q ∷ qs) h = elim (Bool-cases (p q)) [
    | inl keep ↦ rw keep (All-filter _ qs h.0, DistinctKeys-filter qs h.1)
    | inr drop ↦ rw drop (DistinctKeys-filter qs h.1)
  ]

pub unregister_plugin-IsOrdered :
    (plugin_id : String) (g : PluginRegistry)
    → IsOrdered g
    → IsOrdered (unregister_plugin plugin_id g)
unfolding unregister_plugin
unregister_plugin-IsOrdered plugin_id g h = record {
  below = All-filter _ (λ q. q.load_order ≤ g.next_order) g.entries h.below;
  orders = DistinctOrders-filter _ g.entries h.orders;
  keys = DistinctKeys-filter _ g.entries h.keys;
}

-- Each entry was registered before those behind it.
abbrev pub Increasing : List ExtensionRegistration → Type 0
Increasing [] = Unit
Increasing (r ∷ rs) = All (λ q. r.load_order < q.load_order) rs × Increasing rs

All-insert_sorted :
    (P : ExtensionRegistration → Type 0) (r : ExtensionRegistration)
    (es : List ExtensionRegistration)
    → P r
    → All P es
    → All P (insert_sorted r es)
unfolding insert_sorted
All-insert_sorted P r [] h all = (h, tt)
All-insert_sorted P r (q ∷ qs) h all = elim (Bool-cases (leb r.load_order q.load_order)) [
  | inl le ↦ rw (le, insert_sorted) (h, all)
  | inr gt ↦ rw (gt, insert_sorted) (all.0, All-insert_sorted P r qs h all.1)
]

All-sort_entries :
    (P : ExtensionRegistration → Type 0) (es : List ExtensionRegistration)
    → All P es
    → All P (sort_entries es)
unfolding sort_entries
All-sort_entries P [] all = tt
All-sort_entries P (r ∷ rs) all =
    All-insert_sorted P r (sort_entries rs) all.0 (All-sort_entries P rs all.1)

Increasing-insert_sorted :
    (r : ExtensionRegistration) (es : List ExtensionRegistration)
    → All (λ q. q.load_order ≢ r.load_order) es
    → Increasing es
    → Increasing (insert_sorted r es)
unfolding insert_sorted
Increasing-insert_sorted r [] fresh h = (tt, tt)
Increasing-insert_sorted r (q ∷ qs) fresh h = elim (Bool-cases (leb r.load_order q.load_order)) [
  | inl le ↦
      let lt : r.load_order < q.load_order = ground (arith, fresh.0) in
      rw (le, insert_sorted)
        ((lt, All-weaken r _ _ qs (λ x (more : q.load_order < x.load_order). omega arith) h.0), h)
  | inr gt ↦
      rw (gt, insert_sorted)
        (
          All-insert_sorted (λ x. q.load_order < x.load_order) r qs (ground arith) h.0,
          Increasing-insert_sorted r qs fresh.1 h.1,
        )
]

Increasing-sort_entries :
    (es : List ExtensionRegistration) → DistinctOrders es → Increasing (sort_entries es)
unfolding sort_entries
Increasing-sort_entries [] h = tt
Increasing-sort_entries (r ∷ rs) h =
    Increasing-insert_sorted r (sort_entries rs) (All-sort_entries _ rs h.0)
      (Increasing-sort_entries rs h.1)

-- The list of a kind is in the order of registration, with no two entries at one load order.
list_kind-Increasing :
    (kind : Option String) (g : PluginRegistry) → IsOrdered g → Increasing (list_kind kind g)
unfolding list_kind
list_kind-Increasing kind g h =
    Increasing-sort_entries _ (DistinctOrders-filter (has_kind kind) g.entries h.orders)
