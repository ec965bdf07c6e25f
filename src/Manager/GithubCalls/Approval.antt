-- ===== src/Manager/GithubCalls/Approval.antt =====
-- The approval and the repetition of what a plugin writes to GitHub through `_github_call`.
use maintune.Base.{
  ◌≡◌, ◌≢◌, refl, ◌⊎◌, inl, inr, String, Bool, true, false, not, ◌&&◌, some, arith, ◌==◌, string_eq,
}
use maintune.Base.Result.{Result, ok, >>=-eq-ok, >>-eq-ok}
use maintune.Base.Unicode.{Unicode}
use maintune.Json.{Value, Fields, get}
use maintune.Store.{Db, Task, Env, get_task}
use maintune.Recovery.Remote.{Remote}
use maintune.Broker.{is_replay_key}
use maintune.Manager.Reviews.{param}
use maintune.Manager.GithubCalls.{
  Called, fail_if, find_target, is_approved, is_active, checked_body, check_comment, Plan, answers,
  writes, plan, github_call,
}

one_of :
    (m a b : Bool) (e : String)
    → fail_if (not m && not (a && b)) e ≡ ok tt
    → (m ≡ true) ⊎ ((a ≡ true) × (b ≡ true))
one_of true a b e h = inl refl
one_of false true true e h = inr (refl, refl)
one_of false true false e h = cc
one_of false false b e h = cc

module _ (u : Unicode) (env : Env) (method : String) where
  -- What lets a comment through.
  abbrev pub IsAuthorized : Task → Type 0
  IsAuthorized task =
      (method ≡ "github.privileged.comment") ⊎ ((is_approved task ≡ true) × (is_active task ≡ true))

  check_comment-ok :
      (params : Fields) (task : Task) (pair : String × String)
      → check_comment u env method params task ≡ ok pair
      → IsAuthorized task × (is_replay_key pair.1 ≡ true)
  unfolding check_comment
  check_comment-ok params task pair h =
      let body = >>=-eq-ok (checked_body u (get "body" params)) _ h in
      let stable =
        >>-eq-ok (fail_if (not (is_replay_key (param env "invocation_id" params))) _) _ body.2 in
      let allowed =
        >>-eq-ok
          (fail_if
            (not (method == "github.privileged.comment")
              && not (is_approved task && is_active task))
            _)
          _ stable.1 in
      (authorized allowed.0, ground (arith, stable.0, allowed.1))
    where
      authorized :
          fail_if
              (not (method == "github.privileged.comment")
                && not (is_approved task && is_active task))
              "GitHub write requires an active, owner-approved Task"
            ≡ ok tt
          → IsAuthorized task
      authorized p =
          elim (one_of (method == "github.privileged.comment") (is_approved task) (is_active task) _
            p) [ inl privileged ↦ inl (ground arith) | inr both ↦ inr both ]

  module _ (sha256 : String → String) (plugin_id : String) (has_controller : Bool)
      (issue_context pull_context : Value → Task → Called Fields) where
    abbrev planned :
        Fields → Db → Plan u env sha256 plugin_id method has_controller issue_context pull_context
    planned params db =
        plan u env sha256 plugin_id method has_controller issue_context pull_context params db

    -- A plan to write comes from the task that is named, and its checks passed.
    plan-writes :
        (params : Fields) (db : Db) (t : Task) (body invocation_id : String)
        → get_task (param env "task_id" params) db ≡ some t
        → planned params db ≡ writes body invocation_id
        → check_comment u env method params t ≡ ok (body, invocation_id)
    unfolding plan find_target
    plan-writes params db t body invocation_id e h = ground arith

    Plan-cases :
        (p : Plan u env sha256 plugin_id method has_controller issue_context pull_context)
        → ((r : Called Fields) × (p ≡ answers r))
          ⊎ ((body : String) × (invocation_id : String) × (p ≡ writes body invocation_id))
    Plan-cases (answers r) = inl (r, refl)
    Plan-cases (writes body invocation_id) = inr (body, invocation_id, refl)

    abbrev called :
        Remote → (Db → Db) → (Db → Db × Result String Fields) → Fields → Db → Db × Called Fields
    called = github_call u env sha256 plugin_id method has_controller issue_context pull_context

    -- Unless the method is the privileged one, a call for a task that the owner did not approve, or that is not
    -- queued or running, has one answer, whatever GitHub would do with a write, whatever it has of earlier ones and
    -- whatever other sessions do, and leaves the store as it is.
    pub unapproved_unchanged :
        (params : Fields) (db : Db) (t : Task)
        → get_task (param env "task_id" params) db ≡ some t
        → method ≢ "github.privileged.comment"
        → (is_approved t && is_active t) ≡ false
        → (r : Called Fields) × ((remote : Remote) (others : Db → Db)
              (perform : Db → Db × Result String Fields)
            → called remote others perform params db ≡ (db, r))
    unfolding github_call
    unapproved_unchanged params db t e plain unapproved = elim (Plan-cases (planned params db)) [
      | inl (r, p) ↦ (r, λ remote others perform. ground (arith, p))
      | inr (body, invocation_id, p) ↦
          let passed =
            check_comment-ok params t (body, invocation_id)
              (plan-writes params db t body invocation_id e p) in
          absurd (refused passed.0)
    ]
      where
        refused : IsAuthorized t → ⊥
        refused (inl privileged) = plain privileged
        refused (inr both) = cc (both.0, both.1)
