-- ===== src/Policy/Triage/Gates.antt =====
-- When the two gates of backend/maintainer/policy.py let work go on without the owner.
use text.Mathlib.TextEquality.{eq_iff}
use maintune.Base.{
  ℕ, ◌≡◌, ◌≢◌, ◌↔◌, ◌⊎◌, inl, inr, refl, String, Bool, true, false, ◌||◌, List, [], ◌∷◌, arith,
  filter, dedup, any, map, string_eq,
}
use maintune.Base.Text.{Text}
use maintune.Base.Unicode.{Unicode}
use maintune.Base.Regex.{search_text}
use maintune.Policy.Triage.{
  TriageGate, Rule, gate_text, high_risk_rules, matching_rules, high_risk, feature_re, is_chat,
  is_sensitive, add_sensitive, issue_triage_gate, pull_triage_gate, high_or_else,
  feature_or_default,
}

any-iff-filter {ℓ} :
    {A : Type ℓ} (p : A → Bool) (xs : List A) → (any p xs ≡ true) ↔ (filter p xs ≢ [])
any-iff-filter p [] = (λ h. cc, λ h. absurd (h refl))
any-iff-filter p (x ∷ xs) = ground (arith, any-iff-filter p xs)

medium_ne_high : ◌≢◌ {A = String} "medium" "high"
medium_ne_high = ground (arith, eq_iff "medium" "high")

low_ne_high : ◌≢◌ {A = String} "low" "high"
low_ne_high = ground (arith, eq_iff "low" "high")

-- The gate of a pull request, from the rules that match, the sensitive paths and the other gate.
abbrev pull_gate : List Rule → List String → TriageGate → TriageGate
pull_gate rules sensitive other =
    let found = add_sensitive sensitive (map (λ r. r.reason) rules, map (λ r. r.component) rules) in
    high_or_else (dedup found.0) (dedup found.1) other

pull_gate-high_iff :
    (rules : List Rule) (sensitive : List String) (other : TriageGate)
    → other.risk ≢ "high"
    → ((pull_gate rules sensitive other).risk ≡ "high") ↔ ((rules ≢ []) ⊎ (sensitive ≢ []))
unfolding add_sensitive
pull_gate-high_iff [] [] other h = ground arith
pull_gate-high_iff [] (s ∷ ss) other h = (λ e. inr (λ p. cc), λ e. refl)
pull_gate-high_iff (r ∷ rs) [] other h = (λ e. inl (λ p. cc), λ e. refl)
pull_gate-high_iff (r ∷ rs) (s ∷ ss) other h = (λ e. inl (λ p. cc), λ e. refl)

issue_gate-owner_iff :
    (rules : List Rule) (other : TriageGate)
    → ((high_or_else
          (map (λ r. r.reason) rules)
          (map (λ r. r.component) rules)
          other).owner_required
        ≡ true)
      ↔ ((rules ≢ []) ⊎ (other.owner_required ≡ true))
issue_gate-owner_iff [] other = ground arith
issue_gate-owner_iff (r ∷ rs) other = (λ e. inl (λ p. cc), λ e. refl)

module _ (u : Unicode) (same_letter : ℕ → ℕ → Bool) where
  -- A high-risk pattern occurs in the text.
  abbrev pub is_high_risk : Text → Bool
  is_high_risk text = any (λ r. search_text u same_letter r.pattern text) high_risk_rules

  abbrev pub is_feature : Text → Bool
  is_feature text = search_text u same_letter feature_re text

  other_gate-risk : (text : Text) → (feature_or_default u same_letter text).risk ≢ "high"
  other_gate-risk text = ground (arith, medium_ne_high, low_ne_high)

  other_gate-owner :
      (text : Text) → (feature_or_default u same_letter text).owner_required ≡ is_feature text
  other_gate-owner text = ground arith

  -- A pull request is of high risk exactly when a pattern of the rule table occurs in its title and
  -- body or one of its paths is sensitive.
  pull_triage_gate-high_iff :
      (title body : Text) (paths : List String)
      → ((pull_triage_gate u same_letter title body paths).risk ≡ "high") ↔ (
          (is_high_risk (gate_text u same_letter title body) ≡ true)
          ⊎ (any is_sensitive paths ≡ true))
  unfolding pull_triage_gate high_risk matching_rules
  pull_triage_gate-high_iff title body paths =
      let text = gate_text u same_letter title body in
      ground (
        arith,
        pull_gate-high_iff (matching_rules u same_letter text high_risk_rules)
            (filter is_sensitive paths) (feature_or_default u same_letter text)
            (other_gate-risk text),
        any-iff-filter (λ r. search_text u same_letter r.pattern text) high_risk_rules,
        any-iff-filter is_sensitive paths,
      )

  -- An issue waits for the owner exactly when neither its title nor its body is mere chat, and a
  -- pattern of the rule table or the feature pattern occurs in the two together.
  issue_triage_gate-owner_iff :
      (title body : Text)
      → ((issue_triage_gate u same_letter title body).owner_required ≡ true) ↔ (
          ((is_chat u same_letter title || is_chat u same_letter body) ≡ false)
          × ((is_high_risk (gate_text u same_letter title body) ≡ true)
              ⊎ (is_feature (gate_text u same_letter title body) ≡ true)))
  unfolding issue_triage_gate high_risk matching_rules
  issue_triage_gate-owner_iff title body =
      let text = gate_text u same_letter title body in
      ground (
        arith,
        issue_gate-owner_iff (matching_rules u same_letter text high_risk_rules)
            (feature_or_default u same_letter text),
        any-iff-filter (λ r. search_text u same_letter r.pattern text) high_risk_rules,
        other_gate-owner text,
      )
