-- ===== src/Manager/Invocations/Counted.antt =====
-- The count of the calls under way, over every order in which calls begin and end.
use maintune.Base.{
  ℕ, zero, suc, ◌+◌, ◌≡◌, String, true, not, Option, none, some, List, [], ◌∷◌, arith,
  if◌then◌else◌, ◌==◌, string_eq, nat_eq, contains, ◌∙◌, ap, sym,
}
use maintune.Base.Dict.{lookup, insert, lookup-insert, lookup-erase}
use maintune.Base.Result.{ok, ◌>>◌, raise_if, >>-eq-ok, ok-injective}
use maintune.PluginApi.Registration.{ExtensionRegistration}
use maintune.Manager.State.{PluginManager, is_up}
use maintune.Manager.Invocations.{active_of, begin_invocation, finish_invocation}

-- How often a plugin is called in a list of the calls under way.
abbrev pub count : String → List String → ℕ
count p [] = 0
count p (c ∷ cs) = let rest = count p cs in if p == c then suc rest else rest

-- One call less.
abbrev pub remove_one : String → List String → List String
remove_one p [] = []
remove_one p (c ∷ cs) = let rest = remove_one p cs in if p == c then cs else c ∷ rest

-- What is stored for a count.
abbrev pub stored_count : ℕ → Option ℕ
stored_count zero = none
stored_count (suc n) = some (suc n)

-- A state of the manager with the plugins of the calls under way: calls begin and end in any order, and in between
-- other methods run, which leave the count alone.
pub data Reaches : PluginManager → List String → Type 0 where
  idle : {m : PluginManager} → m.active_invocations ≡ [] → Reaches m []
  begun :
      {m m' : PluginManager} {calls : List String} (r : ExtensionRegistration)
      → Reaches m calls
      → begin_invocation r m ≡ ok m'
      → Reaches m' (r.plugin_id ∷ calls)
  finished :
      {m : PluginManager} {calls : List String} (p : String)
      → Reaches m calls
      → contains calls p ≡ true
      → Reaches (finish_invocation p m) (remove_one p calls)
  passed :
      {m m' : PluginManager} {calls : List String}
      → Reaches m calls
      → m'.active_invocations ≡ m.active_invocations
      → Reaches m' calls

abbrev IsCounted : PluginManager → List String → Type 0
IsCounted m calls = (p : String) → lookup p m.active_invocations ≡ stored_count (count p calls)

count-remove_one :
    (p q : String) (calls : List String)
    → contains calls q ≡ true
    → count p calls
      ≡ (if p == q then suc (count p (remove_one q calls)) else count p (remove_one q calls))
count-remove_one p q [] h = cc
count-remove_one p q (c ∷ cs) h = ground (arith, count-remove_one p q cs)

begin_invocation-count :
    (r : ExtensionRegistration) (m m' : PluginManager) (p : String)
    → begin_invocation r m ≡ ok m'
    → lookup p m'.active_invocations ≡ (
        if p == r.plugin_id
        then some (active_of 0 r.plugin_id m + 1)
        else lookup p m.active_invocations)
unfolding begin_invocation
begin_invocation-count r m m' p done =
    let begun = record m {
      active_invocations = insert r.plugin_id (active_of 0 r.plugin_id m + 1) m.active_invocations;
    } in
    let running = raise_if (not (is_up r.plugin_id m)) "Plugin is not running" in
    let undrained =
      >>-eq-ok (raise_if (contains m.draining_plugins r.plugin_id) "Plugin is draining")
        (running >> ok begun) done in
    let up = >>-eq-ok running (ok begun) undrained.1 in
    ap (λ (n : PluginManager). lookup p n.active_invocations) (sym (ok-injective begun m' up.1))
    ∙ lookup-insert p r.plugin_id (active_of 0 r.plugin_id m + 1) m.active_invocations

finish_invocation-count :
    (q : String) (m : PluginManager) (p : String) (n : ℕ)
    → lookup q m.active_invocations ≡ some (suc n)
    → lookup p (finish_invocation q m).active_invocations
      ≡ (if p == q then stored_count n else lookup p m.active_invocations)
unfolding finish_invocation nat_eq
finish_invocation-count q m p zero h = ground (arith, lookup-erase p q m.active_invocations)
finish_invocation-count q m p (suc n) h =
    ground (arith, lookup-insert p q (suc n) m.active_invocations)

active_of-count :
    (q : String) (m : PluginManager) (n : ℕ)
    → lookup q m.active_invocations ≡ stored_count n
    → active_of 0 q m ≡ n
active_of-count q m zero h = ground arith
active_of-count q m (suc n) h = ground arith

begun-IsCounted :
    (r : ExtensionRegistration) (m m' : PluginManager) (calls : List String)
    → begin_invocation r m ≡ ok m'
    → IsCounted m calls
    → IsCounted m' (r.plugin_id ∷ calls)
begun-IsCounted r m m' calls done counted p =
    let n = active_of-count r.plugin_id m (count r.plugin_id calls) (counted r.plugin_id) in
    begin_invocation-count r m m' p done ∙ ground (arith, n, counted p)

finished-IsCounted :
    (q : String) (m : PluginManager) (calls : List String)
    → contains calls q ≡ true
    → IsCounted m calls
    → IsCounted (finish_invocation q m) (remove_one q calls)
finished-IsCounted q m calls here counted p =
    let one_more : count q calls ≡ suc (count q (remove_one q calls)) =
      ground (arith, count-remove_one q q calls here) in
    finish_invocation-count q m p (count q (remove_one q calls))
      (counted q ∙ ap stored_count one_more)
    ∙ ground (arith, counted p, count-remove_one p q calls here)

-- However calls begin and end and whatever else the manager does in between, it stores for each plugin exactly the
-- number of its calls that are under way, and nothing for a plugin that has none.
pub reachable-IsCounted :
    {m : PluginManager} {calls : List String} (p : String)
    → Reaches m calls
    → lookup p m.active_invocations ≡ stored_count (count p calls)
reachable-IsCounted p (idle empty) = ap (lookup p) empty
reachable-IsCounted p (begun r reached done) =
    begun-IsCounted r _ _ _ done (λ q. reachable-IsCounted q reached) p
reachable-IsCounted p (finished q reached here) =
    finished-IsCounted q _ _ here (λ q. reachable-IsCounted q reached) p
reachable-IsCounted p (passed reached same) = ap (lookup p) same ∙ reachable-IsCounted p reached
