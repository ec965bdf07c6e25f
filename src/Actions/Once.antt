-- ===== src/Actions/Once.antt =====
-- The claims of `github_action` on an action, and the calls of GitHub that follow them.
use maintune.Base.{
  ℕ, ◌≡◌, ◌≢◌, refl, sym, ap, ◌∙◌, inl, inr, String, Bool, true, false, Option, none, some, List,
  [], ◌∷◌, arith, All, if◌then◌else◌, ◌==◌, string_eq, nat_eq, contains, Bool-cases,
}
use mathlib.Core.Path.{subst}
use text.Mathlib.TextEquality.{eq_iff}
use maintune.Base.Result.{ok, err, ok-injective}
use maintune.Json.{Fields}
use maintune.Store.{
  Db, Task, Outbox, Env, ActionError, runtime_error, find_first, update_where, get_action,
}
use maintune.Recovery.Remote.{Remote}
use maintune.Actions.{
  Decision, answered, performs, reserve, is_pending, executing, updated_one, claim, decide_row,
  decide_reserved, decide, record_outcome,
}
use maintune.Actions.Review.{
  Previous, Request, settle, Prepared, proceed, refused, reused, prepare_review, scan, identify,
  previous_of,
}

-- The statuses in which an action is never performed.
abbrev pub settled : List String
settled = "completed" ∷ "unknown" ∷ "executing" ∷ "reconciling" ∷ []

pub is_settled : contains settled "unknown" ≡ true
unfolding string_eq
is_settled = refl

-- Ids are primary keys.
abbrev pub DistinctIds : List Outbox → Type 0
DistinctIds [] = Unit
DistinctIds (r ∷ rs) = All (λ (q : Outbox). q.id ≢ r.id) rs × DistinctIds rs

module _ {ℓ} {A : Type ℓ} (p q : A → Bool) (f : A → A) (same : (x : A) → p (f x) ≡ p x) where
  -- A search by what an update leaves alone finds the updated row.
  pub find_first-update_where :
      (xs : List A) (x : A)
      → find_first p xs ≡ some x
      → find_first p (update_where q f xs).0 ≡ some (if q x then f x else x)
  unfolding find_first update_where
  find_first-update_where [] x h = cc
  find_first-update_where (y ∷ ys) x h = ground (arith, same y, find_first-update_where ys x)

module _ (row : Outbox) where
  no_match :
      (rs : List Outbox)
      → All (λ (q : Outbox). q.id ≢ row.id) rs
      → (q : Outbox) → q.id ≡ row.id
      → (f : Outbox → Outbox) → (update_where (is_pending q) f rs).1 ≡ 0
  unfolding update_where
  no_match [] all q same f = refl
  no_match (r ∷ rs) all q same f = ground (arith, all.0, no_match rs all.1 q same f)

  untouched :
      (rs : List Outbox)
      → All (λ (q : Outbox). q.id ≢ row.id) rs
      → (q : Outbox) → q.id ≡ row.id
      → (f : Outbox → Outbox) → (update_where (is_pending q) f rs).0 ≡ rs
  unfolding update_where
  untouched [] all q same f = refl
  untouched (r ∷ rs) all q same f = ground (arith, all.0, untouched rs all.1 q same f)

executing_excludes :
    (env : Env) (row other r : Outbox) → is_pending other (executing env row r) ≡ false
executing_excludes env row other r = ground (arith, eq_iff "executing" "pending")

-- Once a row has been claimed, the store has no pending row with its id.
claimed_excludes :
    (env : Env) (row other : Outbox) (g : Outbox → Outbox) (rs : List Outbox)
    → DistinctIds rs
    → other.id ≡ row.id
    → (update_where (is_pending row) (executing env row) rs).1 ≡ 1
    → (update_where (is_pending other) g (update_where (is_pending row) (executing env row) rs).0).1
      ≡ 0
unfolding update_where
claimed_excludes env row other g [] d same n = refl
claimed_excludes env row other g (r ∷ rs) d same n = elim (Bool-cases (r.id == row.id)) [
  | inl e ↦
      let mine : row.id ≡ r.id = ground arith in
      let theirs : other.id ≡ r.id = same ∙ mine in
      ground (
        arith,
        executing_excludes env row other r,
        untouched r rs d.0 row mine (executing env row),
        no_match r rs d.0 row mine (executing env row),
        no_match r rs d.0 other theirs g,
      )
  | inr e ↦ ground (arith, claimed_excludes env row other g rs d.1 same)
]

updated_one-ok :
    (rows : List Outbox × ℕ) (e : ActionError) (db db' : Db)
    → updated_one rows e db ≡ ok db'
    → (rows.1 ≡ 1) × (db'.outbox ≡ rows.0)
updated_one-ok rows e db db' h = elim (Bool-cases (rows.1 == 1)) [
  | inl one ↦ (
    ground arith,
    ap (λ (x : Db). x.outbox)
        (sym (ok-injective {E = ActionError} (record db { outbox = rows.0 }) db' (ground arith))),
  )
  | inr other ↦ ground arith
]

-- In the store that a claim of a row leaves, where ids are distinct, a claim of the same id is refused,
-- whatever copy of the row it is based on.
pub claim_once :
    (env env' : Env) (row other : Outbox) (db db' : Db)
    → DistinctIds db.outbox
    → other.id ≡ row.id
    → claim env row db ≡ ok db'
    → claim env' other db' ≡ err (runtime_error "GitHub action was claimed concurrently")
unfolding claim
claim_once env env' row other db db' d same h =
    let f : Outbox → Outbox = executing env row in
    let both = updated_one-ok (update_where (is_pending row) f db.outbox) _ db db' h in
    let zero_left =
      subst (λ rs. (update_where (is_pending other) (executing env' other) rs).1 ≡ 0) (sym both.1)
        (claimed_excludes env row other (executing env' other) db.outbox d same both.0) in
    ground (arith, zero_left)

-- The action is performed only after a claim of its row, in a store where the row is pending.
decide_row-settled :
    (env : Env) (remote : Remote) (others : Db → Db) (task_id kind : String) (content : Fields)
    (row : Outbox) (db claimed : Db) (done : Outbox)
    → contains settled row.status ≡ true
    → decide_row env remote others task_id kind content row db ≢ performs claimed done
unfolding decide_row
decide_row-settled env remote others task_id kind content row db claimed done s h = ground arith

reserve-found :
    (env : Env) (task_id kind action_key : String) (content : Fields) (db : Db) (row : Outbox)
    → get_action action_key db ≡ some row
    → reserve env task_id kind action_key content db ≡ (db, row)
unfolding reserve
reserve-found env task_id kind action_key content db row h = ground arith

decide_reserved-settled :
    (env : Env) (remote : Remote) (others : Db → Db) (task_id kind action_key : String)
    (content : Fields) (db claimed : Db) (row done : Outbox)
    → get_action action_key db ≡ some row
    → contains settled row.status ≡ true
    → decide_reserved env remote others task_id kind action_key content db ≢ performs claimed done
unfolding decide_reserved
decide_reserved-settled env remote others task_id kind action_key content db claimed row done g s
      h =
    let found = reserve-found env task_id kind action_key content db row g in
    decide_row-settled env remote others task_id kind content row db claimed done s (
      subst
        (λ (r : Db × Outbox).
          decide_row env remote others task_id kind content r.1 r.0 ≡ performs claimed done)
        found h)

settle-outbox :
    (env : Env) (task : Task) (q : Request) (content more : Fields)
    (found : Option Previous × Option Previous) (db after : Db)
    → settle env task q content found db ≡ proceed after more
    → after.outbox ≡ db.outbox
settle-outbox env task q content more (some p, found) db after h = cc
settle-outbox env task q content more (none, none) db after h = ground arith
settle-outbox env task q content more (none, some p) db after h = cc

prepare_review-outbox :
    (env : Env) (task_id action_key : String) (content more : Fields) (db after : Db)
    → prepare_review env task_id action_key content db ≡ proceed after more
    → after.outbox ≡ db.outbox
unfolding prepare_review
prepare_review-outbox env task_id action_key content more db after h =
    elim (identify env task_id action_key content db)
        as (λ r.
          elim r as (λ x. Prepared) [
            | err e ↦ refused db e
            | ok t ↦ settle env t.0 t.1 content (scan t.1 (previous_of t.0 db.outbox db) none) db
          ]
            ≡ proceed after more
          → after.outbox ≡ db.outbox) [
            | err e ↦ λ k. cc
            | ok t ↦ λ k.
                settle-outbox env t.0 t.1 content more
                  (scan t.1 (previous_of t.0 db.outbox db) none) db after k
          ]
      h

prepared-settled :
    (env : Env) (remote : Remote) (others : Db → Db) (task_id kind action_key : String)
    (content : Fields) (db claimed : Db) (row done : Outbox)
    → get_action action_key db ≡ some row
    → contains settled row.status ≡ true
    → (p : Prepared) → prepare_review env task_id action_key content db ≡ p
    → (elim p as (λ x. Decision) [
      | refused after e ↦ answered after (err e)
      | reused after review ↦ answered after (ok review)
      | proceed after more ↦ decide_reserved env remote others task_id kind action_key more after
    ])
      ≢ performs claimed done
prepared-settled env remote others task_id kind action_key content db claimed row done g s
      (refused after e) same h =
    cc
prepared-settled env remote others task_id kind action_key content db claimed row done g s
      (reused after r) same h =
    cc
prepared-settled env remote others task_id kind action_key content db claimed row done g s
      (proceed after more) same h =
    let kept = prepare_review-outbox env task_id action_key content more db after same in
    decide_reserved-settled env remote others task_id kind action_key more after claimed row done
      (subst (λ rows. find_first (λ (r : Outbox). r.action_key == action_key) rows ≡ some row)
        (sym kept) g)
      s h

-- If the store has the action as completed, unknown, executing or reconciling, then `github_action` does
-- not call GitHub, whatever the task, the kind and the data are, and whatever GitHub and other sessions do.
pub settled_never_performs :
    (env : Env) (remote : Remote) (others : Db → Db) (task_id kind action_key : String)
    (content : Fields) (db claimed : Db) (row done : Outbox)
    → get_action action_key db ≡ some row
    → contains settled row.status ≡ true
    → decide env remote others task_id kind action_key content db ≢ performs claimed done
unfolding decide
settled_never_performs env remote others task_id kind action_key content db claimed row done g s h =
    elim (Bool-cases (kind == "pr_review")) [
      | inl review ↦
          prepared-settled env remote others task_id kind action_key content db claimed row done g s
            (prepare_review env task_id action_key content db) refl (rw review at h)
      | inr other ↦
          decide_reserved-settled env remote others task_id kind action_key content db claimed row
            done g s (rw other at h)
    ]

-- If the call raised while the claimed row was still the one under its key, then no run of
-- `github_action` for that key, by any task and with any data, calls GitHub in the store that is left.
pub unknown_never_performs :
    (env env' : Env) (remote : Remote) (others : Db → Db) (task_id kind action_key e : String)
    (task_id' kind' : String) (content : Fields) (after claimed : Db) (row stored done : Outbox)
    → get_action action_key after ≡ some stored
    → stored.id ≡ row.id
    → decide env' remote others task_id' kind' action_key content
        (record_outcome env task_id kind row after (err e)).0
      ≢ performs claimed done
unfolding record_outcome
unknown_never_performs env env' remote others task_id kind action_key e task_id' kind' content after
      claimed row stored done g same =
    let found =
      find_first-update_where (λ (r : Outbox). r.action_key == action_key) (λ r. r.id == row.id)
        (λ r. record r { status = "unknown" }) (λ x. refl) after.outbox stored g in
    settled_never_performs env' remote others task_id' kind' action_key content _ claimed
      (record stored { status = "unknown" }) done (ground (arith, found)) is_settled
