-- ===== src/Tasks/Restart.antt =====
-- The actions that were under way when the service restarts.
use maintune.Base.{
  ◌≡◌, ◌≢◌, refl, String, true, false, some, List, [], ◌∷◌, arith, ◌==◌, string_eq, any,
}
use text.Mathlib.TextEquality.{eq_iff}
use maintune.Json.{Fields}
use maintune.Store.{Db, Outbox, Env, update_where, get_action}
use maintune.Recovery.Remote.{Remote}
use maintune.Actions.{performs, decide}
use maintune.Actions.Once.{find_first-update_where, settled_never_performs, is_settled}
use maintune.Tasks.{restart, is_under_way, unknown_again}

none_under_way :
    (rows : List Outbox) → any is_under_way (update_where is_under_way unknown_again rows).0 ≡ false
unfolding update_where
none_under_way [] = refl
none_under_way (r ∷ rs) =
    ground (arith, none_under_way rs, eq_iff "unknown" "executing", eq_iff "unknown" "reconciling")

-- No action is executing or being reconciled after a restart.
restart_settles : (env : Env) (db : Db) → any is_under_way (restart env db).outbox ≡ false
unfolding restart
restart_settles env db = none_under_way db.outbox

-- An action that was executing or being reconciled when the service stopped is not performed by any run of
-- `github_action` in the store that the restart leaves.
pub restart_never_performs :
    (env env' : Env) (remote : Remote) (others : Db → Db) (task_id kind action_key : String)
    (content : Fields) (db claimed : Db) (row done : Outbox)
    → get_action action_key db ≡ some row
    → is_under_way row ≡ true
    → decide env' remote others task_id kind action_key content (restart env db)
      ≢ performs claimed done
unfolding restart
restart_never_performs env env' remote others task_id kind action_key content db claimed row done g
      u =
    let found =
      find_first-update_where (λ (r : Outbox). r.action_key == action_key) is_under_way
        unknown_again (λ x. refl) db.outbox row g in
    settled_never_performs env' remote others task_id kind action_key content _ claimed
      (unknown_again row) done (ground (arith, found, u)) is_settled
