-- ===== src/Recovery/Remote.antt =====
-- `complete_list`, `comment_keys` and `inspect_remote` of backend/maintainer/review_recovery.py: whether
-- GitHub has the review that an action may have published. What the client returns is a parameter.
use maintune.Base.{
  ℕ, suc, String, Bool, true, false, not, ◌&&◌, ◌||◌, Option, none, some, List, [], ◌∷◌, length,
  if◌then◌else◌, ◌==◌, string_eq, leb,
}
use maintune.Base.Int.{pos}
use maintune.Base.Result.{Result, ok, err, ◌>>=◌, ◌>>◌, raise_if}
use maintune.Base.Text.{codes, starts_with}
use maintune.Json.{Value, null, int, str, list, dict, Fields, end, get, items, truthy?}
use maintune.Json.Equality.{eq_value, eq_value?}
use maintune.Store.{ActionError, recovery_conflict, raised, or_else}

abbrev pub Remotely : Type 0 → Type 0
Remotely A = Result ActionError A

-- The calls of the GitHub client for one pull request, as what they return or raise.
pub record Remote : Type 0 where
  pub pull : Remotely Fields
  pub review_author : Remotely Value
  pub reviews : Remotely (List Fields)
  pub comments : ℕ → Remotely (List Fields)

-- The item that `snapshot` and `github_action` ask about.
pub record Item : Type 0 where
  pub repository : String
  pub number : ℕ
  pub installation : Value
  pub head_sha : Value
  pub payload : Fields

-- `d.get(k) or {}` where the value is an object.
abbrev pub fields_of : Option Value → Fields
fields_of (some (dict fs)) = fs
fields_of v = end

abbrev objects : List Value → List Fields
objects [] = []
objects (v ∷ vs) = fields_of (some v) ∷ objects vs

abbrev pub objects_of : Option Value → List Fields
objects_of (some (list xs)) = objects (items xs)
objects_of v = []

abbrev pub conflict : String → ActionError
conflict = recovery_conflict

-- A cap is a conflict, not evidence of absence.
unfoldable pub complete_list : Remotely (List Fields) → Remotely (List Fields)
complete_list rows = do
  found ← rows
  raise_if (leb 1001 (length found)) (conflict "GitHub result exceeds reconciliation limit")
  ok found

abbrev pub get_or_null : String → Fields → Value
get_or_null k fs = elim (get k fs) [ none ↦ null | some v ↦ v ]

abbrev or_else_null : Option Value → Value
or_else_null v = elim v [ none ↦ null | some x ↦ x ]

-- The key of one comment.
abbrev pub comment_key : Fields → List Value
comment_key x =
    get_or_null "path" x
    ∷ get_or_null "body" x
    ∷ or_else_null (or_else (get "line" x) (get "original_line" x))
    ∷ (elim (get "side" x) [ none ↦ str "RIGHT" | some v ↦ v ])
    ∷ get_or_null "start_line" x
    ∷ get_or_null "start_side" x
    ∷ []

abbrev pub eq_key : List Value → List Value → Bool
eq_key [] [] = true
eq_key (v ∷ vs) (w ∷ ws) = eq_value v w && eq_key vs ws
eq_key _ _ = false

unfoldable pub comment_keys : List Fields → List (List Value)
comment_keys [] = []
comment_keys (x ∷ xs) = comment_key x ∷ comment_keys xs

unfoldable pub remove_key : List Value → List (List Value) → Option (List (List Value))
remove_key k [] = none
remove_key k (q ∷ qs) =
    let rest = remove_key k qs in
    if eq_key k q then some qs else elim rest [ none ↦ none | some rs ↦ some (q ∷ rs) ]

-- The equality of two counters.
unfoldable pub same_counts : List (List Value) → List (List Value) → Bool
same_counts [] [] = true
same_counts [] (q ∷ qs) = false
same_counts (k ∷ ks) qs = elim (remove_key k qs) [ none ↦ false | some rest ↦ same_counts ks rest ]

-- The state of a published review, by the event of the request.
unfoldable pub expected_state : Option Value → Remotely String
expected_state (some (str e)) =
    if e == "APPROVE"
    then ok "APPROVED"
    else if e == "REQUEST_CHANGES"
    then ok "CHANGES_REQUESTED"
    else if e == "COMMENT"
    then ok "COMMENTED"
    else err (raised "KeyError")
expected_state v = err (raised "KeyError")

-- The test of the pull request.
unfoldable pub pull_moved : Item → Fields → Bool
pull_moved item pull =
    not (eq_value? (get "state" pull) (some (str "open")))
    || truthy? (get "merged" pull)
    || truthy? (get "draft" pull)
    || not (eq_value? (get "sha" (fields_of (get "head" pull))) (some item.head_sha))

abbrev pub is_ours : Value → Fields → Bool
is_ours author review =
    let user : Fields = fields_of (get "user" review) in
    eq_value? (get "type" user) (some (str "Bot")) && eq_value? (get "login" user) (some author)

-- The review differs from the request.
unfoldable pub review_differs : Fields → String → Fields → Bool
review_differs payload state review =
    not (eq_value? (get "body" review) (get "body" payload))
    || not (eq_value? (get "state" review) (some (str state)))
    || not (truthy? (get "submitted_at" review))

unfoldable pub review_id : Option Value → Remotely ℕ
review_id (some (int (pos (suc n)))) = ok (suc n)
review_id v = err (conflict "GitHub review identity is invalid")

abbrev pub https_url : Option Value → Bool
https_url (some (str s)) = starts_with (codes s) (codes "https://")
https_url v = false

module _ (remote : Remote) (item : Item) (state : String) (author : Value) where
  -- The checks on a review of the App for the head.
  unfoldable pub check_match : Fields → Remotely (Unit {0})
  check_match review = do
    raise_if (review_differs item.payload state review)
        (conflict "An App review for this head differs from the reserved review")
    identifier ← review_id (get "id" review)
    comments ← complete_list (remote.comments identifier)
    raise_if
        (not (
          same_counts (comment_keys comments)
            (comment_keys (objects_of (get "comments" item.payload)))))
        (conflict "Published inline comments differ from the reserved review")
    raise_if (not (https_url (get "html_url" review)))
        (conflict "Published review URL is unavailable")

  -- The body of the loop: whether the review is a match.
  unfoldable pub examine : Fields → Remotely Bool
  examine review =
      let matching : Remotely Bool = check_match review >> ok true in
      if not (is_ours author review)
      then ok false
      else if eq_value? (get "state" review) (some (str "PENDING"))
      then err (conflict "The publishing App has a pending review; manual inspection is required")
      else if not (eq_value? (get "commit_id" review) (some item.head_sha))
      then ok false
      else matching

  unfoldable pub matches : List Fields → Remotely (List Fields)
  matches [] = ok []
  matches (review ∷ rows) = do
    found ← examine review
    rest ← matches rows
    ok (if found then review ∷ rest else rest)

at_most_one : List Fields → Remotely (Option Fields)
at_most_one [] = ok none
at_most_one (review ∷ []) = ok (some review)
at_most_one rows = err (conflict "Multiple matching reviews exist; manual inspection is required")

unfoldable pub inspect_remote : Remote → Item → Remotely (Option Fields)
unfolding at_most_one
inspect_remote remote item = do
  pull ← remote.pull
  raise_if (pull_moved item pull) (conflict "PR is closed, draft, merged, or its head changed")
  author ← remote.review_author
  rows ← complete_list remote.reviews
  state ← expected_state (get "event" item.payload)
  found ← matches remote item state author rows
  at_most_one found
