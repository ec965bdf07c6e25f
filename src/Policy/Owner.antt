-- ===== src/Policy/Owner.antt =====
-- `owner_action` of backend/maintainer/policy.py. A decision of `None` is the empty text.
use text.Mathlib.TextEquality.{eq_iff}
use maintune.Base.{
  ◌≡◌, ◌≢◌, ◌⊎◌, String, Bool, true, false, Option, none, some, List, [], ◌∷◌, arith, any, contains,
  string_eq, if◌then◌else◌,
}
use maintune.Base.Text.{Text, codes, has_substring}
use maintune.Base.Unicode.{Unicode, casefold}

abbrev pub owner_actions : List String
owner_actions = "implement" ∷ "reject" ∷ "defer" ∷ []

abbrev pub reject_tokens : List String
reject_tokens = "不修改" ∷ "关闭" ∷ "拒绝" ∷ "不实施" ∷ "reject" ∷ "close" ∷ "decline" ∷ []

abbrev pub defer_tokens : List String
defer_tokens = "暂缓" ∷ "延后" ∷ "稍后" ∷ "defer" ∷ "hold" ∷ []

-- `any(token in text for token in tokens)`
unfoldable pub mentions : List String → Text → Bool
mentions tokens text = any (λ token. has_substring text (codes token)) tokens

reject_ne : ◌≢◌ {A = String} "reject" "implement"
reject_ne = ground (arith, eq_iff "reject" "implement")

defer_ne : ◌≢◌ {A = String} "defer" "implement"
defer_ne = ground (arith, eq_iff "defer" "implement")

module _ (u : Unicode) where
  -- The fallback on the text of the decision.
  unfoldable pub action_of_text : Text → String
  action_of_text decision =
      let text = casefold u decision in
      if mentions reject_tokens text
      then "reject"
      else if mentions defer_tokens text
      then "defer"
      else "implement"

  unfoldable pub owner_action : Text → Option String → String
  owner_action decision none = action_of_text decision
  owner_action decision (some action) =
      if contains owner_actions action then action else action_of_text decision

  action_of_text-cases :
      (decision : Text)
      → let text = casefold u decision in
        ((action_of_text decision ≡ "reject") × (mentions reject_tokens text ≡ true))
        ⊎ ((action_of_text decision ≡ "defer") × (mentions defer_tokens text ≡ true))
        ⊎ ((action_of_text decision ≡ "implement")
            × (mentions reject_tokens text ≡ false)
            × (mentions defer_tokens text ≡ false))
  unfolding action_of_text
  action_of_text-cases decision = ground arith

  -- The action is one of the three.
  owner_action-known :
      (decision : Text) (explicit_action : Option String)
      → contains owner_actions (owner_action decision explicit_action) ≡ true
  unfolding owner_action
  owner_action-known decision none = ground (arith, action_of_text-cases decision)
  owner_action-known decision (some action) = ground (arith, action_of_text-cases decision)

  -- An owner's decision is carried out as "implement" only if that is the explicit action, or if
  -- the explicit action is none of the three and the text holds no token of refusal or delay.
  owner_action_implement :
      (decision : Text) (explicit_action : Option String)
      → owner_action decision explicit_action ≡ "implement"
      → (explicit_action ≡ some "implement")
        ⊎ ((mentions reject_tokens (casefold u decision) ≡ false)
            × (mentions defer_tokens (casefold u decision) ≡ false))
  unfolding owner_action
  owner_action_implement decision none h =
      ground (arith, action_of_text-cases decision, reject_ne, defer_ne)
  owner_action_implement decision (some action) h =
      ground (arith, action_of_text-cases decision, reject_ne, defer_ne)
