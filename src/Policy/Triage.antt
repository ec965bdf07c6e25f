-- ===== src/Policy/Triage.antt =====
-- The triage gates of backend/maintainer/policy.py: the rule table, and the gates of an issue and of
-- a pull request. `same_letter` and the Unicode tables are those of the Python runtime.
pub mod Gates
use maintune.Base.{
  ℕ, String, Bool, true, false, ◌||◌, Option, none, some, List, [], ◌∷◌, ◌++◌, ◌<>◌, ◌==◌, any,
  take, filter, dedup, string_eq, nat_eq, if◌then◌else◌, map,
}
use maintune.Base.Text.{Text, codes, starts_with}
use maintune.Base.Unicode.{Unicode, strip}
use maintune.Base.Regex.{
  Re, empty, char, dot, space_or, seq, alt, star, boundary, literal, any_of, then_later,
  search_text, fullmatch,
}

pub record TriageGate : Type 0 where
  pub classification : String
  pub risk : String
  pub owner_required : Bool
  pub reason : String
  pub affected_components : List String

-- `TriageGate()`
abbrev pub default_gate : TriageGate
default_gate = record {
  classification = "maintenance_bug";
  risk = "low";
  owner_required = false;
  reason = "";
  affected_components = [];
}

pub record Rule : Type 0 where
  pub reason : String
  pub pattern : Re
  pub component : String

-- `auto[- ]?merge|自动合并|merge policy`
auto_merge : Re
auto_merge =
    any_of
      (seq (literal "auto")
        (seq (any_of (literal "-") (literal " " ∷ empty ∷ [])) (literal "merge")))
      (literal "自动合并" ∷ literal "merge policy" ∷ [])

credential : Re
credential = any_of (literal "credential") (
    literal "api key"
    ∷ literal "密钥"
    ∷ literal "凭据"
    ∷ literal "secret storage"
    ∷ literal "secret handling"
    ∷ [])

sandbox_privilege : Re
sandbox_privilege = any_of (then_later (literal "sandbox") (literal "privilege")) (
    then_later (literal "privilege") (literal "sandbox")
    ∷ then_later (literal "沙箱") (literal "权限")
    ∷ literal "提权"
    ∷ [])

authentication : Re
authentication = any_of (literal "authentication") (
    literal "authorization"
    ∷ seq (literal "auth") boundary
    ∷ literal "登录认证"
    ∷ literal "身份验证"
    ∷ literal "鉴权"
    ∷ [])

webhook_validation : Re
webhook_validation =
    alt
      (then_later (literal "webhook")
        (any_of (literal "validation") (literal "signature" ∷ literal "verify" ∷ [])))
      (then_later (literal "webhook") (alt (literal "验证") (literal "签名")))

github_write : Re
github_write =
    any_of (then_later (literal "github") (literal "write"))
      (literal "write authority" ∷ literal "写入权限" ∷ literal "写权限" ∷ [])

-- `_HIGH_RISK_RULES`
unfoldable pub high_risk_rules : List Rule
unfolding auto_merge credential sandbox_privilege authentication webhook_validation github_write
high_risk_rules =
    record {
      reason = "auto_merge_policy";
      pattern = auto_merge;
      component = "Controller merge policy";
    }
    ∷ record { reason = "credential_handling"; pattern = credential; component = "Secret storage" }
    ∷ record {
      reason = "sandbox_privilege";
      pattern = sandbox_privilege;
      component = "Sandbox boundary";
    }
    ∷ record { reason = "authentication"; pattern = authentication; component = "Authentication" }
    ∷ record {
      reason = "webhook_validation";
      pattern = webhook_validation;
      component = "Webhook verification";
    }
    ∷ record {
      reason = "github_write_authority";
      pattern = github_write;
      component = "GitHub write authority";
    }
    ∷ []

-- `_FEATURE_RE`
unfoldable pub feature_re : Re
feature_re =
    any_of
      (seq boundary (
        seq
          (any_of (literal "add") (
            literal "introduce"
            ∷ literal "implement"
            ∷ literal "support"
            ∷ literal "feature"
            ∷ literal "new capability"
            ∷ literal "automatic cleanup"
            ∷ []))
          boundary))
      (literal "新增"
        ∷ literal "新功能"
        ∷ then_later (literal "增加") (literal "功能")
        ∷ then_later (literal "支持") (literal "功能")
        ∷ literal "自动清理"
        ∷ literal "功能请求"
        ∷ [])

-- `_NON_ACTIONABLE_RE`, whose anchors a full match implies
unfoldable pub non_actionable_re : Re
non_actionable_re =
    seq
      (any_of (literal "hi") (
        literal "hello"
        ∷ literal "hey"
        ∷ literal "thanks"
        ∷ literal "thank you"
        ∷ literal "good job"
        ∷ literal "洛天依好可爱"
        ∷ literal "天依好可爱"
        ∷ literal "辛苦了"
        ∷ literal "谢谢"
        ∷ []))
      (star (space_or (codes "!！。.~～") 0x1F300 0x1FAFF))

-- `_SENSITIVE_PATHS`
abbrev pub sensitive_paths : List String
sensitive_paths =
    "backend/maintainer/policy.py" ∷ "backend/maintainer/security.py"
    ∷ "backend/maintainer/github.py" ∷ "backend/maintainer/sandboxes.py"
    ∷ "backend/maintainer/tasks.py" ∷ "backend/maintainer/api.py" ∷ ".github/workflows/" ∷ []

-- `",".join(reasons)`
abbrev pub comma_join : List String → String
comma_join [] = ""
comma_join (r ∷ []) = r
comma_join (r ∷ s ∷ rs) = r <> "," <> comma_join (s ∷ rs)

-- `any(path == prefix or path.startswith(prefix) for prefix in _SENSITIVE_PATHS)`
unfoldable pub is_sensitive : String → Bool
is_sensitive path =
    any (λ prefix. path == prefix || starts_with (codes path) (codes prefix)) sensitive_paths

abbrev high_risk_gate : List String → List String → TriageGate
high_risk_gate reasons components = record {
  classification = "high_risk_change";
  risk = "high";
  owner_required = true;
  reason = comma_join reasons;
  affected_components = components;
}

abbrev feature_gate : TriageGate
feature_gate = record {
  classification = "product_feature";
  risk = "medium";
  owner_required = true;
  reason = "owner_decision_required";
  affected_components = "Product behavior" ∷ [];
}

abbrev pub chat_gate : TriageGate
chat_gate = record {
  classification = "non_actionable";
  risk = "low";
  owner_required = false;
  reason = "non_actionable_chat";
  affected_components = [];
}

abbrev high_or_else : List String → List String → TriageGate → TriageGate
high_or_else [] components other = other
high_or_else (r ∷ rs) components other = high_risk_gate (r ∷ rs) components

-- The reasons and components of a pull request, with those of its sensitive paths.
unfoldable pub add_sensitive : List String → List String × List String → List String × List String
add_sensitive [] (reasons, components) = (reasons, components)
add_sensitive (p ∷ ps) (reasons, components) =
    (reasons ++ "sensitive_path" ∷ [], components ++ take 10 (p ∷ ps))

module _ (u : Unicode) (same_letter : ℕ → ℕ → Bool) where
  -- `f"{title}\n{body}".strip()`
  abbrev pub gate_text : Text → Text → Text
  gate_text title body = strip u (title ++ 10 ∷ body)

  -- The loop over the rules: the reasons and the components are those of the rules that match.
  unfoldable pub matching_rules : Text → List Rule → List Rule
  matching_rules text rules = filter (λ r. search_text u same_letter r.pattern text) rules

  unfoldable pub high_risk : Text → List String × List String
  high_risk text =
      let rules = matching_rules text high_risk_rules in
      (map (λ r. r.reason) rules, map (λ r. r.component) rules)

  abbrev feature_or_default : Text → TriageGate
  feature_or_default text =
      if search_text u same_letter feature_re text then feature_gate else default_gate

  unfoldable pub is_chat : Text → Bool
  is_chat text = fullmatch u same_letter non_actionable_re (strip u text)

  unfoldable pub issue_triage_gate : Text → Text → TriageGate
  issue_triage_gate title body =
      let text = gate_text title body in
      let (reasons, components) = high_risk text in
      if is_chat title || is_chat body
      then chat_gate
      else high_or_else reasons components (feature_or_default text)

  unfoldable pub pull_triage_gate : Text → Text → List String → TriageGate
  unfolding add_sensitive
  pull_triage_gate title body paths =
      let text = gate_text title body in
      let (reasons, components) = add_sensitive (filter is_sensitive paths) (high_risk text) in
      high_or_else (dedup reasons) (dedup components) (feature_or_default text)
