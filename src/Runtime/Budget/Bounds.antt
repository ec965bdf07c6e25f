-- ===== src/Runtime/Budget/Bounds.antt =====
-- The limits of `record_call`, and what each of its exceptions leaves behind.
use mathlib.Core.List.{reverse}
use maintune.Base.{
  ℕ, ◌+◌, ◌≤◌, ◌<◌, ◌≡◌, ◌≢◌, ◌↔◌, ◌⊎◌, String, Bool, true, none, some, List, [], ◌∷◌, ◌++◌, arith,
  length, length-append, leb, ltb, if◌then◌else◌, take,
}
use maintune.Base.Text.{codes}
use maintune.Runtime.Budget.{
  BudgetEvent, ControlError, StepBudgetController, start, count_repeats, is_progressing, accept,
  record_step, run, loop_detected, hard_limit_reached, step_limit_reached, agent_loop_detected,
  agent_hard_limit_reached, agent_soft_limit_reached,
}

abbrev pub events_of : ControlError → List BudgetEvent
events_of (loop_detected n events) = events
events_of (hard_limit_reached n events) = events
events_of (step_limit_reached n events) = events

-- Every accepted call is in the two histories, and none passes a limit.
pub record IsWithin (b : StepBudgetController) : Type 0 where
  pub counted : length b.fingerprints ≡ b.steps
  pub measured : length b.progress ≡ b.steps
  pub used : b.steps ≤ b.current_limit
  pub bounded : b.steps ≤ b.hard_limit
  pub extends : 0 < b.extension

-- A call of `record_call` keeps the two histories as long as `steps` says, and `steps` within the
-- current and the hard limit, whether it returns or raises.
record_step-IsWithin :
    (f : String) (p : Bool) (b : StepBudgetController) → IsWithin b → IsWithin (record_step f p b).0
unfolding record_step accept
record_step-IsWithin f p b h =
    ground (arith, length-append b.fingerprints (f ∷ []), length-append b.progress (p ∷ []))

-- A call of `record_call` returns exactly when it is no loop, the hard limit leaves room, and so
-- does the current limit, or the agent makes progress and the current limit may still grow.
record_step-ok_iff :
    (f : String) (p : Bool) (b : StepBudgetController)
    → ((record_step f p b).1 ≡ none) ↔ (
        (count_repeats f (reverse b.fingerprints) 1 < b.loop_threshold)
        × (b.steps < b.hard_limit)
        × ((b.steps < b.current_limit)
            ⊎ ((is_progressing b ≡ true) × (b.current_limit < b.hard_limit))))
unfolding record_step
record_step-ok_iff f p b = ground arith

-- The event that a refused call appends.
abbrev pub refusal : String → StepBudgetController → BudgetEvent
refusal f b =
    let repeated = count_repeats f (reverse b.fingerprints) 1 in
    if leb b.loop_threshold repeated
    then agent_loop_detected (b.steps + 1) b.steps repeated (take 16 (codes f))
    else if ltb b.hard_limit (b.steps + 1)
    then agent_hard_limit_reached (b.steps + 1) b.steps b.hard_limit
    else agent_soft_limit_reached (b.steps + 1) b.steps b.current_limit

-- A call of `record_call` that raises leaves the counters, the histories and the limit as they
-- were; it appends one event, that of the first check that failed, and the exception carries the
-- events with that one at the end.
record_step-error :
    (f : String) (p : Bool) (b : StepBudgetController) (e : ControlError)
    → (record_step f p b).1 ≡ some e
    → ((record_step f p b).0 ≡ record b { events = b.events ++ refusal f b ∷ [] })
      × (events_of e ≡ b.events ++ refusal f b ∷ [])
unfolding record_step
record_step-error f p b e h = ground arith

-- An accepted call counts as one step within the hard limit.
record_step-steps :
    (f : String) (p : Bool) (b : StepBudgetController)
    → b.steps ≤ b.hard_limit
    → ((record_step f p b).0.steps ≤ b.hard_limit)
      × ((record_step f p b).0.hard_limit ≡ b.hard_limit)
      × ((record_step f p b).1 ≡ none → (record_step f p b).0.steps ≡ b.steps + 1)
unfolding record_step
record_step-steps f p b h = ground arith

run-steps :
    (calls : List (String × Bool)) (b : StepBudgetController)
    → b.steps ≤ b.hard_limit
    → ((run calls b).0.steps ≤ b.hard_limit)
      × (b.hard_limit < b.steps + length calls → (run calls b).1 ≢ none)
unfolding run
run-steps [] b h = (h, λ long e. omega arith)
run-steps ((f, p) ∷ calls) b h =
    ground (arith, record_step-steps f p b h, run-steps calls (record_step f p b).0)

-- However the calls of a run repeat or progress, and whatever the soft limit is, the run accepts
-- no more of them than the hard limit, and a longer list of calls ends in an exception.
pub run_bounded :
    (calls : List (String × Bool)) (soft_limit hard_limit extension loop_threshold : ℕ)
    → let b = start soft_limit hard_limit extension loop_threshold in
      ((run calls b).0.steps ≤ hard_limit) × (hard_limit < length calls → (run calls b).1 ≢ none)
unfolding start
run_bounded calls soft hard ext thr = ground (arith, run-steps calls (start soft hard ext thr))
