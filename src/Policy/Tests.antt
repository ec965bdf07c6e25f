-- ===== src/Policy/Tests.antt =====
-- Runs of the gates, and their theorems at concrete data.
use maintune.Base.{ℕ, ◌≡◌, ◌↔◌, refl, Bool, true, false, none, [], ◌∷◌, string_eq, nat_eq}
use maintune.Base.Text.{codes, starts_with}
use maintune.Base.Unicode.{ascii}
use maintune.Policy.Merge.{
  MergeEvidence, no_evidence, merge_blockers, MayMerge, merge_blockers-eq-nil_iff,
}
use maintune.Policy.Owner.{owner_action, mentions, action_of_text}
use maintune.Base.Regex.{fullmatch, search_text}
use maintune.Policy.Triage.{
  issue_triage_gate, pull_triage_gate, is_chat, is_sensitive, feature_re, non_actionable_re,
  high_risk_rules, high_risk, matching_rules,
}

-- Letters of the two cases, for plain English text.
abbrev same_letter : ℕ → ℕ → Bool
same_letter c d = starts_with (ascii.lower c) (ascii.lower d)

abbrev ready : MergeEvidence
ready = record {
  enabled = true;
  ci_passed = true;
  review_passed = true;
  blocking = false;
  low_risk = true;
  sensitive_files = false;
  breaking_change = false;
  security_change = false;
  owner_required = false;
  reviewed_sha = "abc";
  current_sha = "abc";
}

may_merge : merge_blockers ready ≡ []
unfolding merge_blockers string_eq
may_merge = refl

nothing_known :
    merge_blockers no_evidence
    ≡ "automatic merge disabled" ∷ "CI not passed" ∷ "review not passed" ∷ "blocking findings"
      ∷ "risk not low" ∷ "sensitive files" ∷ "breaking change" ∷ "security change"
      ∷ "owner decision required" ∷ "reviewed head is stale or absent" ∷ []
unfolding merge_blockers string_eq
nothing_known = refl

merge_blockers-eq-nil_iff_example : (merge_blockers ready ≡ []) ↔ MayMerge ready
merge_blockers-eq-nil_iff_example = merge_blockers-eq-nil_iff ready

close_it : owner_action ascii (codes "Please CLOSE this") none ≡ "reject"
unfolding owner_action action_of_text mentions nat_eq
close_it = refl

do_it : owner_action ascii (codes "go on") none ≡ "implement"
unfolding owner_action action_of_text mentions nat_eq
do_it = refl

greeting :
    (issue_triage_gate ascii same_letter (codes "Thanks !!") (codes "x")).classification
    ≡ "non_actionable"
unfolding issue_triage_gate is_chat fullmatch nat_eq non_actionable_re
greeting = refl

feature :
    (issue_triage_gate ascii same_letter (codes "Add a thing") []).classification
    ≡ "product_feature"
unfolding issue_triage_gate is_chat fullmatch nat_eq non_actionable_re high_risk matching_rules
    search_text high_risk_rules feature_re
feature = refl

risky :
    (issue_triage_gate ascii same_letter (codes "a") (codes "Auto-Merge")).classification
    ≡ "high_risk_change"
unfolding issue_triage_gate is_chat fullmatch nat_eq non_actionable_re high_risk matching_rules
    search_text high_risk_rules feature_re
risky = refl

sensitive :
    (pull_triage_gate ascii same_letter (codes "a") [] (".github/workflows/ci.yml" ∷ [])).risk
    ≡ "high"
unfolding pull_triage_gate nat_eq string_eq high_risk matching_rules search_text high_risk_rules
    feature_re is_sensitive
sensitive = refl
