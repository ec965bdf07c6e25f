-- ===== src/Actions/Performs.antt =====
-- When an action on GitHub is performed, and what its outcome leaves in the outbox.
use maintune.Base.{
  ◌≡◌, ◌≢◌, refl, ap, ◌∙◌, String, none, List, [], ◌∷◌, arith, All, string_eq, nat_eq,
}
use text.Mathlib.TextEquality.{eq_iff}
use maintune.Base.Result.{ok}
use maintune.Json.{Fields, field, end, str}
use maintune.Store.{Db, Outbox, Env, runtime_error, update_where, get_action, add_event}
use maintune.Recovery.Remote.{Remote}
use maintune.Actions.{
  performs, reserve, is_pending, executing, updated_one, claim, attempt, decide_row,
  decide_reserved, decide,
}

-- The row that `reserve` stores for a new key.
abbrev pub reserved_row : Env → String → String → String → Fields → Outbox
reserved_row env task_id kind action_key content = record {
  id = env.new_id;
  task_id = task_id;
  action_key = action_key;
  kind = kind;
  status = "pending";
  attempts = 0;
  created = env.now;
  content = content;
  external_id = none;
  external_url = none;
  error = none;
}

unmatched_rows :
    (row : Outbox) (f : Outbox → Outbox) (rs : List Outbox)
    → All (λ (r : Outbox). r.id ≢ row.id) rs
    → update_where (is_pending row) f rs ≡ (rs, 0)
unfolding update_where
unmatched_rows row f [] all = refl
unmatched_rows row f (r ∷ rs) all = ground (arith, all.0, unmatched_rows row f rs all.1)

matched_head :
    (row : Outbox) (f : Outbox → Outbox) (rs : List Outbox)
    → row.status ≡ "pending"
    → All (λ (r : Outbox). r.id ≢ row.id) rs
    → update_where (is_pending row) f (row ∷ rs) ≡ (f row ∷ rs, 1)
unfolding update_where
matched_head row f rs p all = ground (arith, unmatched_rows row f rs all)

-- A claim of a pending row at the head of the outbox, whose id no other row has.
claim_head :
    (env : Env) (row : Outbox) (db : Db) (rs : List Outbox)
    → row.status ≡ "pending"
    → All (λ (r : Outbox). r.id ≢ row.id) rs
    → db.outbox ≡ row ∷ rs
    → claim env row db ≡ ok (record db { outbox = executing env row row ∷ rs })
unfolding claim nat_eq
claim_head env row db rs p all e =
    let f : Outbox → Outbox = executing env row in
    let refusal = runtime_error "GitHub action was claimed concurrently" in
    ap (λ xs. updated_one (update_where (is_pending row) f xs) refusal db) e
    ∙ ap (λ x. updated_one x refusal db) (matched_head row f rs p all)

-- An action of a new key, of any kind but a review, is performed at once; its row then stands in the
-- outbox as executing, at its first attempt, and the other rows are as they were.
pub new_action_performs :
    (env : Env) (remote : Remote) (others : Db → Db) (task_id kind action_key : String)
    (content : Fields) (db : Db)
    → kind ≢ "pr_review"
    → get_action action_key db ≡ none
    → All (λ (r : Outbox). r.id ≢ env.new_id) db.outbox
    → (claimed : Db) × (decide env remote others task_id kind action_key content db
        ≡ performs claimed (reserved_row env task_id kind action_key content))
      × (claimed.outbox
          ≡ executing env
              (reserved_row env task_id kind action_key content)
              (reserved_row env task_id kind action_key content)
            ∷ db.outbox)
unfolding decide decide_reserved decide_row reserve attempt
new_action_performs env remote others task_id kind action_key content db k g fresh =
    let row : Outbox = reserved_row env task_id kind action_key content in
    let event : Fields = field "kind" (str kind) (field "action_key" (str action_key) end) in
    let reserved : Db =
      add_event env task_id "action_reserved" event (record db { outbox = row ∷ db.outbox }) in
    let taken = claim_head env row reserved db.outbox refl fresh refl in
    (
      record reserved { outbox = executing env row row ∷ db.outbox },
      ground (
        arith,
        taken,
        eq_iff "pending" "completed",
        eq_iff "pending" "unknown",
        eq_iff "pending" "executing",
        eq_iff "pending" "reconciling",
      ),
      refl,
    )
