-- ===== src/Broker/Replay.antt =====
-- What a decision of a plugin does, and what its replay does.
use maintune.Base.{
  ◌≡◌, ◌≢◌, refl, sym, ◌∙◌, String, Bool, true, false, not, ◌&&◌, none, some, arith, ◌==◌,
  string_eq, contains,
}
use mathlib.Core.Path.{subst}
use maintune.Base.Dict.{Dict, lookup, insert, lookup-insert}
use maintune.Base.Result.{ok, raise_if, >>=-eq-ok, >>-eq-ok, ok-injective}
use maintune.Base.Text.{Text, codes}
use maintune.Base.Unicode.{Unicode}
use maintune.Json.{Fields}
use maintune.Store.{Env}
use maintune.Policy.Owner.{owner_action, owner_actions}
use maintune.Broker.{
  BrokerDb, param, replay_id, submit, owner_decision, resolve_task, is_replay_key,
}

module _ (u : Unicode) (env : Env) (sha256 : String → String) (plugin_id : String) where
  inserted : (k : String) (v : Fields) (d : Dict Fields) → lookup k (insert k v d) ≡ some v
  inserted k v d = ground (arith, lookup-insert k k v d)

  submit-ok :
      (task_id decision key : String) (s s' : BrokerDb) (action : String)
      → submit u env sha256 plugin_id task_id decision key s ≡ ok (s', action)
      → (row : Fields) × (lookup (replay_id u env sha256 plugin_id key) s'.config ≡ some row)
        × (action ≡ owner_action u (codes decision) (some decision))
  unfolding submit
  submit-ok task_id decision key s s' action h =
      let a =
        >>-eq-ok
          (raise_if
            (elim (lookup (replay_id u env sha256 plugin_id key) s.config) as (λ x. Bool) [
              | none ↦ false
              | some row ↦ true
            ])
            _)
          _ h in
      let b = >>=-eq-ok (resolve_task task_id s.db) _ a.1 in
      let c = >>-eq-ok (raise_if (not (b.0.status == "waiting_for_owner")) _) _ b.2 in
      let same = ok-injective _ (s', action) c.1 in
      subst
        (λ (r : BrokerDb × String).
          (row : Fields) × (lookup (replay_id u env sha256 plugin_id key) r.0.config ≡ some row)
          × (r.1 ≡ owner_action u (codes decision) (some decision)))
        same (_, inserted (replay_id u env sha256 plugin_id key) _ s.config, refl)

  submit-replayed :
      (task_id decision key : String) (s : BrokerDb) (row : Fields) (r : BrokerDb × String)
      → lookup (replay_id u env sha256 plugin_id key) s.config ≡ some row
      → submit u env sha256 plugin_id task_id decision key s ≢ ok r
  unfolding submit
  submit-replayed task_id decision key s row r e h = ground arith

  decision-ok :
      (action : String) (params : Fields) (s : BrokerDb) (r : BrokerDb × String)
      → owner_decision u env sha256 plugin_id action params s ≡ ok r
      → (contains owner_actions (param env "decision" params) ≡ true)
        × (submit u env sha256 plugin_id
              (param env "task_id" params)
              (param env "decision" params)
              (param env "replay_key" params)
              s
            ≡ ok r)
  unfolding owner_decision
  decision-ok action params s r h =
      let a = >>-eq-ok (raise_if (not (action == "submit")) _) _ h in
      let b =
        >>-eq-ok
          (raise_if
            (not (
              contains owner_actions (param env "decision" params)
              && is_replay_key (param env "replay_key" params)))
            _)
          _ a.1 in
      (ground (arith, b.0), b.1)

  explicit :
      (text : Text) (action : String)
      → contains owner_actions action ≡ true
      → owner_action u text (some action) ≡ action
  unfolding owner_action
  explicit text action h = ground arith

  -- A decision that is accepted is answered with the action that the plugin sent, which is one of the three actions of
  -- an owner and which `owner_action` takes as it is, whatever text it comes with.
  pub owner_decision_kept :
      (action : String) (params : Fields) (s s' : BrokerDb) (decided : String) (text : Text)
      → owner_decision u env sha256 plugin_id action params s ≡ ok (s', decided)
      → (decided ≡ param env "decision" params)
        × (contains owner_actions decided ≡ true)
        × (owner_action u text (some decided) ≡ decided)
  owner_decision_kept action params s s' decided text h =
      let first = decision-ok action params s (s', decided) h in
      let decision = param env "decision" params in
      let stored =
        submit-ok (param env "task_id" params) decision (param env "replay_key" params) s s' decided
          first.1 in
      let same = stored.2 ∙ explicit (codes decision) decision first.0 in
      let known = subst (λ a. contains owner_actions a ≡ true) (sym same) first.0 in
      (same, known, explicit text decided known)

-- After a decision was accepted, a decision of the same plugin with the same replay key is refused, of whatever task
-- and whatever it decides, and at whatever time it comes.
pub owner_decision_once :
    (u : Unicode) (env later : Env) (sha256 : String → String) (plugin_id : String)
    (action again : String) (params replayed : Fields) (s s' : BrokerDb) (decided : String)
    (r : BrokerDb × String)
    → owner_decision u env sha256 plugin_id action params s ≡ ok (s', decided)
    → param later "replay_key" replayed ≡ param env "replay_key" params
    → owner_decision u later sha256 plugin_id again replayed s' ≢ ok r
owner_decision_once u env later sha256 plugin_id action again params replayed s s' decided r h same
      k =
    let first = decision-ok u env sha256 plugin_id action params s (s', decided) h in
    let second = decision-ok u later sha256 plugin_id again replayed s' r k in
    let stored =
      submit-ok u env sha256 plugin_id (param env "task_id" params) (param env "decision" params)
        (param env "replay_key" params) s s' decided first.1 in
    submit-replayed u later sha256 plugin_id (param later "task_id" replayed)
      (param later "decision" replayed) (param later "replay_key" replayed) s' stored.0 r
      (subst (λ key. lookup (replay_id u env sha256 plugin_id key) s'.config ≡ some stored.0)
        (sym same) stored.1)
      second.1
