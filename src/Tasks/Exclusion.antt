-- ===== src/Tasks/Exclusion.antt =====
-- Which of the workers, the retries and the recoveries may take a task.
use maintune.Base.{
  ◌+◌, ◌≡◌, ◌≢◌, refl, ap, ◌∙◌, String, Bool, true, false, none, some, List, [], ◌∷◌, arith,
  if◌then◌else◌, ◌==◌, string_eq, any, filter, Option-cases, inl, inr,
}
use text.Mathlib.TextEquality.{eq_iff}
use maintune.Base.Result.{ok}
use maintune.Json.{Value}
use maintune.Store.{Db, Task, Outbox, Env, find_first, update_where, get_task}
use maintune.Actions.Once.{find_first-update_where}
use maintune.Recovery.Snapshot.{RecoveryItem, snapshot, is_unsettled}
use maintune.Recovery.Exclusive.{snapshot-action, only_unknown-ok}
use maintune.Tasks.{begin_task, retry_task}

filter-none : (p : Outbox → Bool) (rows : List Outbox) → any p rows ≡ false → filter p rows ≡ []
filter-none p [] h = refl
filter-none p (r ∷ rs) h = ground (arith, filter-none p rs)

retry_task-settled :
    (env : Env) (task_id : String) (db db' : Db)
    → retry_task env task_id db ≡ ok db'
    → any (is_unsettled task_id) db.outbox ≡ false
unfolding retry_task
retry_task-settled env task_id db db' h = ground arith

-- A task that may be retried as it is has no action to recover, in the same store: a retry and a recovery
-- of a review exclude each other.
pub retry_excludes_recovery :
    (env other : Env) (task_id : String) (db db' : Db) (x : RecoveryItem)
    → retry_task env task_id db ≡ ok db'
    → snapshot other task_id db ≢ ok x
retry_excludes_recovery env other task_id db db' x h s =
    let found = snapshot-action other task_id db x s in
    let rows = (only_unknown-ok (filter (is_unsettled task_id) db.outbox) found.0 found.1).0 in
    let nothing =
      filter-none (is_unsettled task_id) db.outbox (retry_task-settled env task_id db db' h) in
    ground (arith, rows, nothing)

pub find_first-holds :
    {A : Type 0} (p : A → Bool) (xs : List A) (x : A) → find_first p xs ≡ some x → p x ≡ true
unfolding find_first
find_first-holds p [] x h = cc
find_first-holds p (y ∷ ys) x h = ground (arith, find_first-holds p ys x)

abbrev has_id : String → Task → Bool
has_id task_id t = t.id == task_id

-- The task as the session leaves it.
abbrev running : Value → Task → Task
running lease t = record t {
  status = "running";
  attempts = t.attempts + 1;
  lease_until = some lease;
}

begin_task-running :
    (env : Env) (lease : Value) (task_id : String) (db db' : Db)
    → begin_task env lease task_id db ≡ some db'
    → (t : Task) × (get_task task_id db ≡ some t)
      × (db'.tasks ≡ (update_where (has_id task_id) (running lease) db.tasks).0)
unfolding begin_task
begin_task-running env lease task_id db db' h = elim (Option-cases (get_task task_id db)) [
  | inl e ↦ ground arith
  | inr (t, e) ↦ (t, e, ground arith)
]

running_refused :
    (env : Env) (lease : Value) (task_id : String) (db : Db) (t : Task)
    → get_task task_id db ≡ some t
    → t.status ≡ "running"
    → begin_task env lease task_id db ≡ none
unfolding begin_task
running_refused env lease task_id db t e s = ground (arith, eq_iff "running" "queued")

-- A task that one worker began is not begun again in the store that is left.
pub begin_task_once :
    (env other : Env) (lease lease' : Value) (task_id : String) (db db' : Db)
    → begin_task env lease task_id db ≡ some db'
    → begin_task other lease' task_id db' ≡ none
begin_task_once env other lease lease' task_id db db' h =
    let (t, e, tasks) = begin_task-running env lease task_id db db' h in
    let kept =
      find_first-update_where (has_id task_id) (has_id task_id) (running lease) (λ x. refl) db.tasks
        t e in
    let mine : has_id task_id t ≡ true = find_first-holds (has_id task_id) db.tasks t e in
    let here : get_task task_id db' ≡ some (running lease t) =
      ap (find_first (has_id task_id)) tasks
      ∙ (kept ∙ ap (λ (b : Bool). some (if b then running lease t else t)) mine) in
    running_refused other lease' task_id db' (running lease t) here refl
