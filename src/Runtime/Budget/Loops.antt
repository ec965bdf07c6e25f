-- ===== src/Runtime/Budget/Loops.antt =====
-- The loop detection of `record_call`.
use mathlib.Core.List.{reverse, reverse-append}
use maintune.Base.{
  ℕ, zero, suc, ◌+◌, ◌≤◌, ◌<◌, ◌≡◌, refl, ◌∙◌, String, Bool, some, List, [], ◌∷◌, ◌++◌, arith,
  replicate, Option-cases, ◌⊎◌, inl, inr, string_eq,
}
use maintune.Runtime.Budget.{
  StepBudgetController, start, count_repeats, record_step, run, loop_detected,
}

-- The accumulator of the loop.
count_repeats-add :
    (f : String) (xs : List String) (n : ℕ) → count_repeats f xs (n + 1) ≡ count_repeats f xs n + 1
unfolding count_repeats
count_repeats-add f [] n = refl
count_repeats-add f (x ∷ xs) n = ground (arith, count_repeats-add f xs (n + 1))

le-count_repeats : (f : String) (xs : List String) (n : ℕ) → n ≤ count_repeats f xs n
unfolding count_repeats
le-count_repeats f [] n = omega arith
le-count_repeats f (x ∷ xs) n = ground (arith, le-count_repeats f xs (n + 1))

count_repeats-replicate :
    (f : String) (k : ℕ) (ys : List String) (n : ℕ)
    → n + k ≤ count_repeats f (replicate k f ++ ys) n
unfolding count_repeats
count_repeats-replicate f zero ys n = omega (arith, le-count_repeats f ys n)
count_repeats-replicate f (suc k) ys n = ground (arith, count_repeats-replicate f k ys (n + 1))

-- A history, latest first, never holds one call `n` times in a row.
abbrev pub IsLoopFree : ℕ → List String → Type 0
IsLoopFree n latest = (f : String) (xs ys : List String) → latest ≡ xs ++ (replicate n f ++ ys) → ⊥

IsLoopFree-cons :
    (t : ℕ) (g : String) (latest : List String)
    → count_repeats g latest 1 < suc t
    → IsLoopFree (suc t) latest
    → IsLoopFree (suc t) (g ∷ latest)
IsLoopFree-cons t g latest few free f [] ys e = ground (arith, count_repeats-replicate f t ys 1)
IsLoopFree-cons t g latest few free f (x ∷ xs) ys e = free f xs ys (cc)

-- A call that repeats the last calls, so that the row would reach the threshold, is refused as a
-- loop, whatever the limits and the progress are.
repeat_refused :
    (f : String) (p : Bool) (b : StepBudgetController) (n : ℕ) (older : List String)
    → reverse b.fingerprints ≡ replicate n f ++ older
    → b.loop_threshold ≤ n + 1
    → (k : ℕ) × ((record_step f p b).1 ≡ some (loop_detected k (record_step f p b).0.events))
      × (n < k)
      × ((record_step f p b).0.fingerprints ≡ b.fingerprints)
unfolding record_step
repeat_refused f p b n older e h = (
  count_repeats f (reverse b.fingerprints) 1,
  ground (arith, reached),
  omega (arith, reached),
  ground (arith, reached),
)
  where
    reached : n + 1 ≤ count_repeats f (reverse b.fingerprints) 1
    reached = rw e (omega (arith, count_repeats-replicate f n older 1))

record_step-fingerprints :
    (f : String) (p : Bool) (b : StepBudgetController)
    → ((record_step f p b).0.loop_threshold ≡ b.loop_threshold)
      × (((record_step f p b).0.fingerprints ≡ b.fingerprints)
          ⊎ ((count_repeats f (reverse b.fingerprints) 1 < b.loop_threshold)
              × ((record_step f p b).0.fingerprints ≡ b.fingerprints ++ f ∷ [])))
unfolding record_step
record_step-fingerprints f p b = ground arith

record_step-IsLoopFree :
    (f : String) (p : Bool) (b : StepBudgetController) (t : ℕ)
    → b.loop_threshold ≡ suc t
    → IsLoopFree (suc t) (reverse b.fingerprints)
    → IsLoopFree (suc t) (reverse (record_step f p b).0.fingerprints)
record_step-IsLoopFree f p b t e free = elim ((record_step-fingerprints f p b).1) [
  | inl same ↦ rw same free
  | inr more ↦
      rw (more.1, reverse-append)
        (IsLoopFree-cons t f (reverse b.fingerprints) (rw e at more.0) free)
]

run_from-IsLoopFree :
    (calls : List (String × Bool)) (b : StepBudgetController) (t : ℕ)
    → b.loop_threshold ≡ suc t
    → IsLoopFree (suc t) (reverse b.fingerprints)
    → IsLoopFree (suc t) (reverse (run calls b).0.fingerprints)
unfolding run
run_from-IsLoopFree [] b t e free = free
run_from-IsLoopFree ((f, p) ∷ calls) b t e free = elim (Option-cases (record_step f p b).1) [
  | inl go ↦
      rw (go, run)
        (run_from-IsLoopFree calls (record_step f p b).0 t ((record_step-fingerprints f p b).0 ∙ e)
          (record_step-IsLoopFree f p b t e free))
  | inr (x, stop) ↦ rw (stop, run) (record_step-IsLoopFree f p b t e free)
]

-- However a run goes on, the history that it leaves never holds the same call `loop_threshold`
-- times in a row, for a threshold of at least 1.
pub run-IsLoopFree :
    (calls : List (String × Bool)) (soft_limit hard_limit extension loop_threshold : ℕ)
    → 0 < loop_threshold
    → IsLoopFree loop_threshold
        (reverse (run calls (start soft_limit hard_limit extension loop_threshold)).0.fingerprints)
unfolding start
run-IsLoopFree calls soft hard ext zero h = elim h [ ]
run-IsLoopFree calls soft hard ext (suc t) h =
    run_from-IsLoopFree calls (start soft hard ext (suc t)) t refl nil_free
  where
    nil_free : IsLoopFree (suc t) []
    nil_free f [] ys e = cc
    nil_free f (x ∷ xs) ys e = cc
