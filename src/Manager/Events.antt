-- ===== src/Manager/Events.antt =====
-- The events of plugins in backend/maintainer/plugin_manager.py: `set_subscriptions` and `publish`, with the outbox of
-- each plugin by its id. Whether a socket takes an event is a parameter, and the manager stays as it is while the
-- event is sent.
pub mod Tests
use maintune.Base.{
  ℕ, ◌≡◌, ◌⊎◌, refl, String, Bool, true, false, not, ◌&&◌, ◌||◌, Option, none, some, List, [], ◌∷◌,
  any, filter, map, arith, ltb, length, if◌then◌else◌, ◌==◌, string_eq, contains, dedup, is_unique,
  Bool-cases, inl, inr, ◌∙◌,
}
use maintune.Base.Dict.{Dict, lookup, insert, lookup-insert}
use mathlib.Core.Path.{subst}
use maintune.Base.Text.{codes}
use maintune.Json.{Value, str, Items, items, get, truthy?}
use maintune.Packages.{PluginManifest}
use maintune.Manager.State.{PluginManager, record_of, is_enabled}
use maintune.Manager.Outbox.{OutboxFile, missing, queue}

-- What `publish` changes: the sockets and the outboxes.
pub record Delivery : Type 0 where
  pub connections : Dict (List String)
  pub outboxes : Dict OutboxFile

abbrev subscribable : List Value → List String
subscribable [] = []
subscribable (str s ∷ vs) =
    let rest = subscribable vs in if ltb 80 (length (codes s)) then rest else s ∷ rest
subscribable (v ∷ vs) = subscribable vs

-- `set_subscriptions`; a set is the list of its elements.
unfoldable pub set_subscriptions : String → Items → PluginManager → PluginManager
set_subscriptions plugin_id events m = record m {
  subscriptions = insert plugin_id (dedup (subscribable (items events))) m.subscriptions;
}

-- `not subscribed or event.event in subscribed`
abbrev pub is_subscribed : String → Option (List String) → Bool
is_subscribed event none = true
is_subscribed event (some []) = true
is_subscribed event (some (s ∷ ss)) = contains (s ∷ ss) event

-- `self.packages.discover()`
abbrev pub manifests_of : PluginManager → List PluginManifest
manifests_of m = map (λ (entry : String × PluginManifest). entry.1) m.installed

abbrev pub ids_of : List PluginManifest → List String
ids_of manifests = map (λ (manifest : PluginManifest). manifest.id) manifests

-- Whether an event goes to a plugin.
unfoldable pub wants : String → PluginManager → PluginManifest → Bool
wants event m manifest =
    contains manifest.capabilities "event.subscribe"
    && is_enabled (record_of manifest.id m)
    && is_subscribed event (lookup manifest.id m.subscriptions)

-- A plugin that has the capability, is enabled, and either has no subscriptions or subscribed to the event.
abbrev pub IsInterested : String → PluginManager → PluginManifest → Type 0
IsInterested event m manifest =
    (contains manifest.capabilities "event.subscribe" ≡ true)
    × (truthy? (get "enabled" (record_of manifest.id m)) ≡ true)
    × ((lookup manifest.id m.subscriptions ≡ none)
        ⊎ (lookup manifest.id m.subscriptions ≡ some [])
        ⊎ ((events : List String) × (lookup manifest.id m.subscriptions ≡ some events)
            × (contains events event ≡ true)))

IsInterested-wants :
    (event : String) (m : PluginManager) (manifest : PluginManifest)
    → IsInterested event m manifest
    → wants event m manifest ≡ true
unfolding wants
IsInterested-wants event m manifest (capable, enabled, inl e) = ground (arith, e)
IsInterested-wants event m manifest (capable, enabled, inr (inl e)) = ground (arith, e)
IsInterested-wants event m manifest (capable, enabled, inr (inr ([], e, heard))) = cc
IsInterested-wants event m manifest (capable, enabled, inr (inr (s ∷ ss, e, heard))) =
    ground (arith, e)

subscribed-cases :
    (event : String) (subscribed : Option (List String))
    → is_subscribed event subscribed ≡ true
    → (subscribed ≡ none)
      ⊎ (subscribed ≡ some [])
      ⊎ ((events : List String) × (subscribed ≡ some events) × (contains events event ≡ true))
subscribed-cases event none h = inl refl
subscribed-cases event (some []) h = inr (inl refl)
subscribed-cases event (some (s ∷ ss)) h = inr (inr (s ∷ ss, refl, h))

wants-IsInterested :
    (event : String) (m : PluginManager) (manifest : PluginManifest)
    → wants event m manifest ≡ true
    → IsInterested event m manifest
unfolding wants
wants-IsInterested event m manifest h = (
  ground arith,
  ground arith,
  subscribed-cases event (lookup manifest.id m.subscriptions) (ground arith),
)

abbrev pub outbox_of : String → Delivery → OutboxFile
outbox_of plugin_id d = elim (lookup plugin_id d.outboxes) [ none ↦ missing | some file ↦ file ]

abbrev kept_sockets : (String → Bool) → String → Dict (List String) → Dict (List String)
kept_sockets sends plugin_id connections = elim (lookup plugin_id connections) [
  | none ↦ connections
  | some sockets ↦ insert plugin_id (filter sends sockets) connections
]

module _ (sends : String → Bool) (event event_id : String) (message : Value) where
  -- The body of the loop, for a plugin that wants the event.
  abbrev pub deliver : String → Delivery → Delivery
  deliver plugin_id d = record {
    connections = kept_sockets sends plugin_id d.connections;
    outboxes = insert plugin_id (queue event_id message (outbox_of plugin_id d)) d.outboxes;
  }

  unfoldable pub deliver_all : PluginManager → List PluginManifest → Delivery → Delivery
  deliver_all m [] d = d
  deliver_all m (manifest ∷ manifests) d =
      deliver_all m manifests (if wants event m manifest then deliver manifest.id d else d)

  -- `publish`
  unfoldable pub publish : PluginManager → Delivery → Delivery
  publish m d = deliver_all m (manifests_of m) d

  -- No plugin of an id wants the event.
  abbrev pub none_wants : PluginManager → String → List PluginManifest → Bool
  none_wants m plugin_id manifests = not (
      any (λ (manifest : PluginManifest). manifest.id == plugin_id && wants event m manifest)
        manifests)

  deliver-other :
      (m : PluginManager) (plugin_id : String) (manifest : PluginManifest) (d : Delivery)
      → (manifest.id == plugin_id && wants event m manifest) ≡ false
      → outbox_of plugin_id (if wants event m manifest then deliver manifest.id d else d)
        ≡ outbox_of plugin_id d
  deliver-other m plugin_id manifest d h = ground (
    arith,
    lookup-insert plugin_id manifest.id (queue event_id message (outbox_of manifest.id d))
        d.outboxes,
  )

  deliver-hit :
      (m : PluginManager) (plugin_id : String) (manifest : PluginManifest) (d : Delivery)
      → (manifest.id == plugin_id && wants event m manifest) ≡ true
      → outbox_of plugin_id (if wants event m manifest then deliver manifest.id d else d)
        ≡ queue event_id message (outbox_of plugin_id d)
  deliver-hit m plugin_id manifest d h = ground (
    arith,
    lookup-insert plugin_id manifest.id (queue event_id message (outbox_of manifest.id d))
        d.outboxes,
  )

  deliver_all-other :
      (m : PluginManager) (plugin_id : String) (manifests : List PluginManifest) (d : Delivery)
      → none_wants m plugin_id manifests ≡ true
      → outbox_of plugin_id (deliver_all m manifests d) ≡ outbox_of plugin_id d
  unfolding deliver_all
  deliver_all-other m plugin_id [] d h = refl
  deliver_all-other m plugin_id (manifest ∷ manifests) d h =
      deliver_all-other m plugin_id manifests _ (ground arith)
      ∙ deliver-other m plugin_id manifest d (ground arith)

  absent-none_wants :
      (m : PluginManager) (plugin_id : String) (manifests : List PluginManifest)
      → contains (ids_of manifests) plugin_id ≡ false
      → none_wants m plugin_id manifests ≡ true
  absent-none_wants m plugin_id [] h = refl
  absent-none_wants m plugin_id (manifest ∷ manifests) h =
      ground (arith, absent-none_wants m plugin_id manifests)

  deliver_all-once :
      (m : PluginManager) (plugin_id : String) (manifests : List PluginManifest) (d : Delivery)
      → is_unique (ids_of manifests) ≡ true
      → outbox_of plugin_id (deliver_all m manifests d) ≡ (
          if none_wants m plugin_id manifests
          then outbox_of plugin_id d
          else queue event_id message (outbox_of plugin_id d))
  unfolding deliver_all
  deliver_all-once m plugin_id [] d h = refl
  deliver_all-once m plugin_id (manifest ∷ manifests) d h =
      let sent = if wants event m manifest then deliver manifest.id d else d in
      elim (Bool-cases (manifest.id == plugin_id && wants event m manifest)) [
        | inl hit ↦
            deliver_all-other m plugin_id manifests sent
              (absent-none_wants m plugin_id manifests (ground arith))
            ∙ deliver-hit m plugin_id manifest d hit
            ∙ ground arith
        | inr miss ↦
            let same = deliver-other m plugin_id manifest d miss in
            deliver_all-once m plugin_id manifests sent (ground arith) ∙ ground (arith, same)
      ]

  lookup-among :
      (k : String) (manifest : PluginManifest) (installed : Dict PluginManifest)
      → lookup k installed ≡ some manifest
      → contains (ids_of (map (λ (entry : String × PluginManifest). entry.1) installed)) manifest.id
        ≡ true
  lookup-among k manifest [] found = cc
  lookup-among k manifest ((j, other) ∷ installed) found = elim (Bool-cases (k == j)) [
    | inl same ↦
        let it : other ≡ manifest = ground (arith, found) in
        subst
          (λ (n : PluginManifest).
            contains
              (ids_of (map (λ (entry : String × PluginManifest). entry.1) ((j, other) ∷ installed)))
              n.id
            ≡ true)
          it (ground arith)
    | inr differ ↦ ground (arith, lookup-among k manifest installed)
  ]

  -- Of plugins with different ids, those with one id are the one that is installed under it.
  none_wants-one :
      (m : PluginManager) (k : String) (manifest : PluginManifest) (installed : Dict PluginManifest)
      → lookup k installed ≡ some manifest
      → is_unique (ids_of (map (λ (entry : String × PluginManifest). entry.1) installed)) ≡ true
      → none_wants m manifest.id (map (λ (entry : String × PluginManifest). entry.1) installed)
        ≡ not (wants event m manifest)
  none_wants-one m k manifest [] found unique = cc
  none_wants-one m k manifest ((j, other) ∷ installed) found unique = elim (Bool-cases (k == j)) [
    | inl same ↦
        let alone =
          absent-none_wants m other.id
            (map (λ (entry : String × PluginManifest). entry.1) installed) (ground arith) in
        let it : other ≡ manifest = ground (arith, found) in
        subst
          (λ (n : PluginManifest).
            none_wants m n.id (other ∷ map (λ (entry : String × PluginManifest). entry.1) installed)
            ≡ not (wants event m n))
          it (ground (arith, alone))
    | inr differ ↦
        let later : lookup k installed ≡ some manifest = ground arith in
        let among = lookup-among k manifest installed later in
        ground (arith, among, none_wants-one m k manifest installed later)
  ]

  -- Where no two plugins have one id, an event is queued once for an installed plugin that has the capability
  -- "event.subscribe", is enabled, and subscribed to the event or has no subscriptions; the queue of any other installed
  -- plugin stays as it is.
  pub publish-queued :
      (m : PluginManager) (k : String) (manifest : PluginManifest) (d : Delivery)
      → is_unique (ids_of (manifests_of m)) ≡ true
      → lookup k m.installed ≡ some manifest
      → (IsInterested event m manifest
          → outbox_of manifest.id (publish m d) ≡ queue event_id message (outbox_of manifest.id d))
        × ((IsInterested event m manifest → ⊥)
            → outbox_of manifest.id (publish m d) ≡ outbox_of manifest.id d)
  unfolding publish
  publish-queued m k manifest d unique found =
      let all = deliver_all-once m manifest.id (manifests_of m) d unique in
      let one = none_wants-one m k manifest m.installed found unique in
      (
        λ interested. all ∙ ground (arith, one, IsInterested-wants event m manifest interested),
        λ uninterested. elim (Bool-cases (wants event m manifest)) [
          | inl wanted ↦ absurd (uninterested (wants-IsInterested event m manifest wanted))
          | inr unwanted ↦ all ∙ ground (arith, one)
        ],
      )
