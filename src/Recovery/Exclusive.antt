-- ===== src/Recovery/Exclusive.antt =====
-- How a recovery of backend/maintainer/review_recovery.py holds its action and settles it.
use maintune.Base.{
  ℕ, ◌≡◌, ◌≢◌, refl, sym, ap, ◌∙◌, String, Bool, true, false, not, ◌&&◌, Option, none, List, [],
  ◌∷◌, arith, filter, ◌==◌, string_eq, nat_eq, Bool-cases, inl, inr, some, zero, suc, ◌+◌, ◌*◌, ◌^◌,
  ◌≤◌, ltb,
}
use maintune.Base.Int.{pos}
use native.Mathlib.Nat.{le_of_mul-le-mul_right, one-le-pow, pow-suc}
use mathlib.Core.Path.{subst}
use text.Mathlib.TextEquality.{eq_iff}
use maintune.Base.Result.{ok, Result, raise_if, >>=-eq-ok, >>-eq-ok, ok-injective}
use maintune.Json.{Fields, dict, float, get, str}
use maintune.Json.Same.{same_fields, same_fields_refl}
use maintune.Store.{Db, Outbox, Env, ActionError, update_where}
use maintune.Recovery.Remote.{Remote, inspect_remote}
use maintune.Recovery.Snapshot.{
  RecoveryItem, snapshot, is_unsettled, only_unknown, stopped_task, reviewed_repository,
  installation_for, payload_of, well_formed, agrees,
}
use maintune.Recovery.Recover.{
  RecoveryDecision, claim_review, is_claimable, hold, exactly_one, is_preview, authorize, is_recent,
  reconcile_review, settle_review, stored_task, is_held, settle_row, less_apart,
}

-- The action that a snapshot is of.
pub snapshot-action :
    (env : Env) (task_id : String) (db : Db) (x : RecoveryItem)
    → snapshot env task_id db ≡ ok x
    → (action : Outbox) × (only_unknown (filter (is_unsettled task_id) db.outbox) ≡ ok action)
      × (action.id ≡ x.action_id)
      × (action.attempts ≡ x.attempts)
      × (action.content ≡ x.content)
unfolding snapshot
snapshot-action env task_id db x h =
    let a = >>=-eq-ok (stopped_task task_id db) _ h in
    let b = >>=-eq-ok (only_unknown (filter (is_unsettled task_id) db.outbox)) _ a.2 in
    let c = >>=-eq-ok (reviewed_repository a.0 db) _ b.2 in
    let d = >>=-eq-ok (installation_for a.0 c.0) _ c.2 in
    let e = >>=-eq-ok (payload_of b.0 db) _ d.2 in
    let p = e.0 in
    let f =
      >>-eq-ok
        (raise_if (not (well_formed p && agrees a.0 b.0 p (env.payload_hash (dict p)) d.0)) _) _
        e.2 in
    let g = >>-eq-ok (raise_if _ _) _ f.1 in
    let same = ok-injective _ x g.1 in
    (
      b.0,
      b.1,
      ap (λ (y : RecoveryItem). y.action_id) same,
      ap (λ (y : RecoveryItem). y.attempts) same,
      ap (λ (y : RecoveryItem). y.content) same,
    )

pub only_unknown-ok :
    (rows : List Outbox) (action : Outbox)
    → only_unknown rows ≡ ok action
    → (rows ≡ action ∷ []) × (action.status ≡ "unknown")
unfolding only_unknown
only_unknown-ok [] action h = cc
only_unknown-ok (a ∷ []) action h = ground arith
only_unknown-ok (a ∷ b ∷ rows) action h = cc

only_unknown-held :
    (env : Env) (x : RecoveryItem) (a action : Outbox)
    → only_unknown (hold env x a ∷ []) ≢ ok action
unfolding only_unknown
only_unknown-held env x a action h = ground (arith, eq_iff "reconciling" "unknown")

module _ {A : Type 0} (p q : A → Bool) (f : A → A)
    (kept : (x : A) → q x ≡ true → p (f x) ≡ p x) where
  -- A filter by what an update leaves alone.
  filter-update_where :
      (xs : List A) → filter p (update_where q f xs).0 ≡ (update_where q f (filter p xs)).0
  unfolding update_where
  filter-update_where [] = refl
  filter-update_where (x ∷ xs) = ground (arith, kept x, filter-update_where xs)

hold-unsettled :
    (env : Env) (task_id : String) (x : RecoveryItem) (r : Outbox)
    → is_claimable x r ≡ true
    → is_unsettled task_id (hold env x r) ≡ is_unsettled task_id r
hold-unsettled env task_id x r h = ground arith

claimable_action :
    (x : RecoveryItem) (action : Outbox)
    → action.status ≡ "unknown"
    → action.id ≡ x.action_id
    → action.attempts ≡ x.attempts
    → action.content ≡ x.content
    → is_claimable x action ≡ true
claimable_action x action s i a c =
    let t : same_fields action.content x.content ≡ true =
      subst (λ y. same_fields action.content y ≡ true) c (same_fields_refl action.content) in
    ground arith

one_claimed :
    (x : RecoveryItem) (f : Outbox → Outbox) (action : Outbox)
    → is_claimable x action ≡ true
    → (update_where (is_claimable x) f (action ∷ [])).0 ≡ f action ∷ []
unfolding update_where
one_claimed x f action h = ground arith

exactly_one-ok :
    (rows : List Outbox × ℕ) (message : String) (db db' : Db)
    → exactly_one rows message db ≡ ok db'
    → db'.outbox ≡ rows.0
exactly_one-ok rows message db db' h = elim (Bool-cases (rows.1 == 1)) [
  | inl one ↦
      ap (λ (x : Db). x.outbox)
        (sym (ok-injective {E = ActionError} (record db { outbox = rows.0 }) db' (ground arith)))
  | inr other ↦ ground arith
]

pub claim_review-parts :
    (env : Env) (task_id : String) (decision : RecoveryDecision) (db claimed : Db)
    (x : RecoveryItem)
    → claim_review env task_id decision db ≡ ok (claimed, x)
    → (snapshot env task_id db ≡ ok x)
      × (is_preview decision x ≡ true)
      × (claimed.outbox ≡ (update_where (is_claimable x) (hold env x) db.outbox).0)
unfolding claim_review
claim_review-parts env task_id decision db claimed x h =
    let a = >>=-eq-ok (snapshot env task_id db) _ h in
    let y = a.0 in
    let b = >>-eq-ok (raise_if (not (is_preview decision y)) _) _ a.2 in
    let c =
      >>=-eq-ok (exactly_one (update_where (is_claimable y) (hold env y) db.outbox) _ db) _ b.1 in
    let same = ok-injective (c.0, y) (claimed, x) c.2 in
    let held = exactly_one-ok (update_where (is_claimable y) (hold env y) db.outbox) _ db c.0 c.1 in
    subst
      (λ (r : Db × RecoveryItem).
        (snapshot env task_id db ≡ ok r.1)
        × (is_preview decision r.1 ≡ true)
        × (r.0.outbox ≡ (update_where (is_claimable r.1) (hold env r.1) db.outbox).0))
      same (a.1, ground (arith, b.0), held)

claim_review-blocked :
    (env : Env) (task_id : String) (decision : RecoveryDecision) (db : Db)
    → ((action : Outbox) → only_unknown (filter (is_unsettled task_id) db.outbox) ≢ ok action)
    → (c : Db × RecoveryItem) → claim_review env task_id decision db ≢ ok c
claim_review-blocked env task_id decision db blocked c h =
    let parts = claim_review-parts env task_id decision db c.0 c.1 h in
    let found = snapshot-action env task_id db c.1 parts.0 in blocked found.0 found.1

-- In the store that the claim of a recovery leaves, no recovery of the same task gets past its own claim.
pub claim_review-excludes :
    (env other : Env) (task_id : String) (decision again : RecoveryDecision) (db claimed : Db)
    (x : RecoveryItem) (c : Db × RecoveryItem)
    → claim_review env task_id decision db ≡ ok (claimed, x)
    → claim_review other task_id again claimed ≢ ok c
claim_review-excludes env other task_id decision again db claimed x c h =
    let parts = claim_review-parts env task_id decision db claimed x h in
    let (action, only, id, attempts, content) = snapshot-action env task_id db x parts.0 in
    let (rows, status) = only_unknown-ok (filter (is_unsettled task_id) db.outbox) action only in
    let claimable = claimable_action x action status id attempts content in
    let after : filter (is_unsettled task_id) claimed.outbox ≡ hold env x action ∷ [] =
      ap (filter (is_unsettled task_id)) parts.2
      ∙ (filter-update_where (is_unsettled task_id) (is_claimable x) (hold env x)
            (hold-unsettled env task_id x) db.outbox
          ∙ (ap (λ rs. (update_where (is_claimable x) (hold env x) rs).0) rows
              ∙ one_claimed x (hold env x) action claimable)) in
    claim_review-blocked other task_id again claimed
      (λ a k. only_unknown-held env x action a (subst (λ rs. only_unknown rs ≡ ok a) after k)) c

not_raised : (b : Bool) (e : ActionError) → raise_if b e ≡ ok tt → b ≡ false
not_raised true e h = cc
not_raised false e h = refl

four_times : (p : ℕ) → p * p * 2 * 2 ≡ p * 2 * (p * 2)
four_times p = grind arith

pow_twice : (k : ℕ) → 2 ^ (k + k) ≡ 2 ^ k * 2 ^ k
pow_twice zero = refl
pow_twice (suc k) =
    let more : suc k + suc k ≡ suc (suc (k + k)) = omega arith in
    ap (λ j. 2 ^ j) more
    ∙ (pow-suc 2 (suc (k + k))
        ∙ (ap (λ y. y * 2) (pow-suc 2 (k + k) ∙ ap (λ y. y * 2) (pow_twice k))
            ∙ (four_times (2 ^ k) ∙ ap (λ y. y * y) (sym (pow-suc 2 k)))))

times_sum : (a q p n m : ℕ) → m ≡ p * p → a * p + 0 + q * m ≤ n * p + 0 → (a + q * p) * p ≤ n * p
times_sum a q p n m e h = grind arith

above : (a b : ℕ) (r : Result ActionError Bool) → r ≡ ok (ltb a b) → r ≡ ok false → b ≤ a
above a b r one other = let below = ok-injective (ltb a b) false (sym one ∙ other) in ground arith

-- A clock reading in 2 ^ k parts of a second is recent if fewer than 120 seconds are between.
is_recent-false :
    (n a k : ℕ) → is_recent (float (pos n) k) (float (pos a) k) ≡ ok false → a + 120 * 2 ^ k ≤ n
unfolding is_recent less_apart
is_recent-false n a k h =
    let apart = above (n * 2 ^ k + 0) (a * 2 ^ k + 0 + 120 * 2 ^ (k + k)) _ refl h in
    let scaled : (a + 120 * 2 ^ k) * 2 ^ k ≤ n * 2 ^ k =
      times_sum a 120 (2 ^ k) n (2 ^ (k + k)) (pow_twice k) apart in
    le_of_mul-le-mul_right {m = a + 120 * 2 ^ k} {n = n} {k = 2 ^ k} scaled
      (one-le-pow k 2 (omega arith))

authorized :
    (env : Env) (x : RecoveryItem) (decision : RecoveryDecision)
    → authorize env x decision none ≡ ok tt
    → (decision.retry_authorized ≡ true) × (is_recent env.now x.last_attempt ≡ ok false)
unfolding authorize
authorized env x decision h =
    let a = >>-eq-ok (raise_if (not decision.retry_authorized) _) _ h in
    let b = >>=-eq-ok (is_recent env.now x.last_attempt) _ a.1 in
    (ground (arith, a.0), b.1 ∙ ap (λ r. ok r) (not_raised b.0 _ b.2))

outcomes_differ : some (str "reconciled") ≢ some (str "retry_authorized")
unfolding string_eq
outcomes_differ e = ground (arith, eq_iff "reconciled" "retry_authorized")

-- The outcome that a recovery reports tells whether GitHub had the review.
settled_outcome :
    (env' env : Env) (task_id : String) (x : RecoveryItem) (decision : RecoveryDecision)
    (match : Option Fields) (db : Db) (r : Db × Fields)
    → settle_review env' env task_id x decision match db ≡ ok r
    → get "outcome" r.1 ≡ some (str "retry_authorized")
    → match ≡ none
unfolding settle_review string_eq
settled_outcome env' env task_id x decision none db r h outcome = refl
settled_outcome env' env task_id x decision (some review) db r h outcome =
    let t = >>=-eq-ok (stored_task task_id db) _ h in
    let u = >>-eq-ok (raise_if _ _) _ t.2 in
    let d =
      >>=-eq-ok
        (exactly_one
          (update_where (is_held env' x) (settle_row env x decision (some review)) db.outbox) _ db)
        _ u.1 in
    let same = ok-injective _ r d.2 in
    let told : get "outcome" r.1 ≡ some (str "reconciled") =
      sym (ap (λ (y : Db × Fields). get "outcome" y.1) same) in
    absurd (outcomes_differ (sym told ∙ outcome))

-- A recovery that reports "retry_authorized" was authorized by the administrator, and the last attempt of the action
-- was at least 120 seconds before its clock reading, where both readings are in parts of 2 ^ k to a second.
pub reconcile_review-authorized :
    (env' env : Env) (remote : Remote) (task_id : String) (x : RecoveryItem)
    (decision : RecoveryDecision) (later : Db) (r : Db × Fields) (n a k : ℕ)
    → reconcile_review env' env remote task_id x decision later ≡ ok r
    → get "outcome" r.1 ≡ some (str "retry_authorized")
    → env.now ≡ float (pos n) k
    → x.last_attempt ≡ float (pos a) k
    → (decision.retry_authorized ≡ true) × (a + 120 * 2 ^ k ≤ n)
unfolding reconcile_review
reconcile_review-authorized env' env remote task_id x decision later r n a k h outcome now last =
    let (match, asked, rest) = >>=-eq-ok (inspect_remote remote x.item) _ h in
    let (allowed, settled) =
      >>-eq-ok (authorize env x decision match)
        (settle_review env' env task_id x decision match later) rest in
    let nothing = settled_outcome env' env task_id x decision match later r settled outcome in
    let (retry, apart) =
      authorized env x decision (subst (λ m. authorize env x decision m ≡ ok tt) nothing allowed) in
    (
      retry,
      is_recent-false n a k (
          subst (λ v. is_recent v (float (pos a) k) ≡ ok false) now
            (subst (λ v. is_recent env.now v ≡ ok false) last apart)),
    )
