-- ===== src/Runtime/Budget/Tests.antt =====
-- Runs of the step budget, and its theorems at concrete data.
use maintune.Base.{
  ◌≤◌, ◌<◌, ◌≡◌, ◌≢◌, refl, String, Bool, true, false, none, some, List, [], ◌∷◌, arith, length,
  string_eq,
}
use mathlib.Core.List.{reverse}
use maintune.Base.Text.{codes}
use maintune.Runtime.Budget.{
  StepBudgetController, start, run, record_step, loop_detected, hard_limit_reached,
  agent_loop_detected, count_repeats, is_progressing,
}
use maintune.Runtime.Budget.Bounds.{run_bounded}
use maintune.Runtime.Budget.Loops.{IsLoopFree, run-IsLoopFree}

abbrev calls : List (String × Bool)
calls = ("a", true) ∷ ("b", false) ∷ ("c", false) ∷ ("a", true) ∷ ("a", true) ∷ []

abbrev fresh : StepBudgetController
fresh = record {
  soft_limit = 2;
  hard_limit = 4;
  extension = 1;
  loop_threshold = 2;
  current_limit = 2;
  steps = 1;
  fingerprints = "a" ∷ [];
  progress = true ∷ [];
  events = [];
}

-- Two extensions, then the hard limit.
run_extends :
    (run calls (start 2 4 1 3)).1 ≡ some (hard_limit_reached 4 (run calls (start 2 4 1 3)).0.events)
unfolding run record_step start count_repeats is_progressing string_eq
run_extends = refl

run_loops : (run calls (start 9 9 1 2)).0.steps ≡ 4
unfolding run record_step start count_repeats is_progressing string_eq
run_loops = refl

again :
    (record_step "a" true fresh).1
    ≡ some (loop_detected 2 (agent_loop_detected 2 1 2 (codes "a") ∷ []))
unfolding record_step count_repeats string_eq
again = refl

run_bounded_example :
    ((run calls (start 2 4 1 3)).0.steps ≤ 4)
    × (4 < length calls → (run calls (start 2 4 1 3)).1 ≢ none)
run_bounded_example = run_bounded calls 2 4 1 3

run-IsLoopFree_example : IsLoopFree 2 (reverse (run calls (start 9 9 1 2)).0.fingerprints)
run-IsLoopFree_example = run-IsLoopFree calls 9 9 1 2 (omega arith)
