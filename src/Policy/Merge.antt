-- ===== src/Policy/Merge.antt =====
-- `MergeEvidence` and `merge_blockers` of backend/maintainer/policy.py.
use maintune.Base.{
  ◌≡◌, ◌≢◌, ◌↔◌, String, Bool, true, false, not, ◌&&◌, List, [], ◌∷◌, arith, ◌==◌, string_eq,
  if◌then◌else◌,
}

pub record MergeEvidence : Type 0 where
  pub enabled : Bool
  pub ci_passed : Bool
  pub review_passed : Bool
  pub blocking : Bool
  pub low_risk : Bool
  pub sensitive_files : Bool
  pub breaking_change : Bool
  pub security_change : Bool
  pub owner_required : Bool
  pub reviewed_sha : String
  pub current_sha : String

-- The defaults of the class.
abbrev pub no_evidence : MergeEvidence
no_evidence = record {
  enabled = false;
  ci_passed = false;
  review_passed = false;
  blocking = true;
  low_risk = false;
  sensitive_files = true;
  breaking_change = true;
  security_change = true;
  owner_required = true;
  reviewed_sha = "";
  current_sha = "";
}

-- `[reason for reason, passed in checks.items() if not passed]`
failed : List (String × Bool) → List String
failed [] = []
failed ((reason, passed) ∷ checks) = if passed then failed checks else reason ∷ failed checks

unfoldable pub merge_blockers : MergeEvidence → List String
unfolding failed
merge_blockers e = failed (
    ("automatic merge disabled", e.enabled)
    ∷ ("CI not passed", e.ci_passed)
    ∷ ("review not passed", e.review_passed)
    ∷ ("blocking findings", not e.blocking)
    ∷ ("risk not low", e.low_risk)
    ∷ ("sensitive files", not e.sensitive_files)
    ∷ ("breaking change", not e.breaking_change)
    ∷ ("security change", not e.security_change)
    ∷ ("owner decision required", not e.owner_required)
    ∷ (
      "reviewed head is stale or absent",
      not (e.current_sha == "") && e.current_sha == e.reviewed_sha,
    )
    ∷ [])

-- What has to hold of a pull request before it merges by itself.
pub record MayMerge (e : MergeEvidence) : Type 0 where
  pub enabled : e.enabled ≡ true
  pub ci_passed : e.ci_passed ≡ true
  pub review_passed : e.review_passed ≡ true
  pub nothing_blocks : e.blocking ≡ false
  pub low_risk : e.low_risk ≡ true
  pub no_sensitive_files : e.sensitive_files ≡ false
  pub no_breaking_change : e.breaking_change ≡ false
  pub no_security_change : e.security_change ≡ false
  pub no_owner_required : e.owner_required ≡ false
  pub head_known : e.current_sha ≢ ""
  pub head_reviewed : e.current_sha ≡ e.reviewed_sha

-- There is no blocker exactly when automatic merge is enabled, CI and review passed, the risk is
-- low, none of the five kinds of finding blocks, and the current head is known and is the reviewed one.
pub merge_blockers-eq-nil_iff : (e : MergeEvidence) → (merge_blockers e ≡ []) ↔ MayMerge e
unfolding merge_blockers
merge_blockers-eq-nil_iff e = (λ h. ground arith, λ h. ground arith)
