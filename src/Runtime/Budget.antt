-- ===== src/Runtime/Budget.antt =====
-- `StepBudgetController` of backend/maintainer/runtime.py. `record` is a reserved word here, so the
-- method is `record_call`. A raised `RuntimeControlError` comes back beside the state, which keeps
-- what was appended to `events` before the raise. The SHA-256 digest of the call, `str` of a value
-- that is no text, and `str.lower` belong to the Python runtime: they are the section's parameters.
pub mod Bounds
pub mod Loops
pub mod Tests
use mathlib.Core.List.{reverse}
use maintune.Base.{
  ℕ, zero, suc, ◌+◌, min, String, Bool, true, false, not, ◌&&◌, ◌||◌, Option, none, some, List, [],
  ◌∷◌, ◌++◌, leb, ltb, if◌then◌else◌, ◌==◌, contains, dedup, string_eq, length, any, last_items,
  take,
}
use maintune.Base.Text.{Text, codes, has_substring}
use maintune.Base.Unicode.{Unicode, lower}
use maintune.Json.{Value, null, str, Fields, get, truthy}

pub data BudgetEvent : Type 0 where
  agent_loop_detected : (step steps_used repeat_count : ℕ) (fingerprint : Text) → BudgetEvent
  agent_hard_limit_reached : (step steps_used hard_limit : ℕ) → BudgetEvent
  agent_soft_limit_reached : (step steps_used soft_limit : ℕ) → BudgetEvent
  agent_budget_extended : (step steps_used from_limit to_limit : ℕ) → BudgetEvent

-- The three exceptions, each with the number in its message and a copy of the events.
pub data ControlError : Type 0 where
  loop_detected : (repeated : ℕ) (events : List BudgetEvent) → ControlError
  hard_limit_reached : (limit : ℕ) (events : List BudgetEvent) → ControlError
  step_limit_reached : (limit : ℕ) (events : List BudgetEvent) → ControlError

pub record StepBudgetController : Type 0 where
  pub soft_limit : ℕ
  pub hard_limit : ℕ
  pub extension : ℕ
  pub loop_threshold : ℕ
  pub current_limit : ℕ
  pub steps : ℕ
  pub fingerprints : List String
  pub progress : List Bool
  pub events : List BudgetEvent

-- `__init__` and `__post_init__`
unfoldable pub start : (soft_limit hard_limit extension loop_threshold : ℕ) → StepBudgetController
start soft_limit hard_limit extension loop_threshold = record {
  soft_limit = soft_limit;
  hard_limit = hard_limit;
  extension = extension;
  loop_threshold = loop_threshold;
  current_limit = soft_limit;
  steps = 0;
  fingerprints = [];
  progress = [];
  events = [];
}

-- The `for` loop over `reversed(self.fingerprints)`, with its `break`.
unfoldable pub count_repeats : String → List String → ℕ → ℕ
count_repeats fingerprint [] repeated = repeated
count_repeats fingerprint (previous ∷ rest) repeated = elim (previous == fingerprint) [
  | true ↦ count_repeats fingerprint rest (repeated + 1)
  | false ↦ repeated
]

unfoldable pub is_progressing : StepBudgetController → Bool
is_progressing b =
    any (λ p. p) (last_items 5 b.progress) || leb 3 (length (dedup (last_items 5 b.fingerprints)))

-- The last three statements of `record`.
unfoldable pub accept : String → Bool → StepBudgetController → StepBudgetController
accept fingerprint made_progress b = record b {
  fingerprints = b.fingerprints ++ fingerprint ∷ [];
  progress = b.progress ++ made_progress ∷ [];
  steps = b.steps + 1;
}

abbrev log_event : BudgetEvent → StepBudgetController → StepBudgetController
log_event e b = record b { events = b.events ++ e ∷ [] }

-- Past the current limit: extend the budget, or stop.
unfoldable pub at_soft_limit :
    String → Bool → StepBudgetController → StepBudgetController × Option ControlError
unfolding accept
at_soft_limit fingerprint made_progress b =
    let next = b.steps + 1 in
    let c = log_event (agent_soft_limit_reached next b.steps b.current_limit) b in
    let to = min (b.current_limit + b.extension) b.hard_limit in
    if not (is_progressing b) || leb b.hard_limit b.current_limit
    then (c, some (step_limit_reached b.current_limit c.events))
    else (
      accept fingerprint made_progress (
          log_event (agent_budget_extended next b.steps b.current_limit to)
            (record c { current_limit = to })),
      none,
    )

-- `record` after the fingerprint and the progress flag are computed.
unfoldable pub record_step :
    String → Bool → StepBudgetController → StepBudgetController × Option ControlError
unfolding at_soft_limit
record_step fingerprint made_progress b =
    let next = b.steps + 1 in
    let repeated = count_repeats fingerprint (reverse b.fingerprints) 1 in
    let looping =
      log_event (agent_loop_detected next b.steps repeated (take 16 (codes fingerprint))) b in
    let hard = log_event (agent_hard_limit_reached next b.steps b.hard_limit) b in
    if leb b.loop_threshold repeated
    then (looping, some (loop_detected repeated looping.events))
    else if ltb b.hard_limit next
    then (hard, some (hard_limit_reached b.hard_limit hard.events))
    else if ltb b.current_limit next
    then at_soft_limit fingerprint made_progress b
    else (accept fingerprint made_progress b, none)

abbrev progress_words : List String
progress_words = "test" ∷ "pytest" ∷ "npm" ∷ "pnpm" ∷ "git diff" ∷ []

module _ (u : Unicode) (digest : String → Fields → String) (str_of : Value → Text) where
  abbrev text_of : Value → Text
  text_of (str s) = codes s
  text_of v = str_of v

  -- `str(arguments.get("command") or "").lower()`
  unfoldable pub command_text : Fields → Text
  command_text arguments = elim (get "command" arguments) [
    | none ↦ []
    | some v ↦ if truthy v then lower u (text_of v) else []
  ]

  unfoldable pub makes_progress : String → Fields → Bool
  unfolding command_text
  makes_progress tool arguments =
      tool == "write_file"
      || tool == "shell"
        && any (λ word. has_substring (command_text arguments) (codes word)) progress_words

  unfoldable pub record_call :
      String → Fields → StepBudgetController → StepBudgetController × Option ControlError
  unfolding record_step makes_progress
  record_call tool arguments = record_step (digest tool arguments) (makes_progress tool arguments)

-- The calls of one agent run, in order: the first exception ends it.
unfoldable pub run :
    List (String × Bool) → StepBudgetController → StepBudgetController × Option ControlError
run [] b = (b, none)
run ((fingerprint, made_progress) ∷ calls) b =
    let (c, stop) = record_step fingerprint made_progress b in
    elim stop [ none ↦ run calls c | some e ↦ (c, some e) ]
