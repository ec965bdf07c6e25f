-- ===== src/Manager/Finalizers/Runs.antt =====
-- Runs of `finalize_task` that follow one another, with the outcomes of the calls.
use maintune.Base.{
  ◌≡◌, ◌≢◌, refl, ap, ◌∙◌, String, Bool, true, false, Option, none, some, List, [], ◌∷◌, ◌++◌,
  arith, string_eq,
}
use maintune.Base.Result.{Result, ok, ◌>>=◌}
use maintune.Base.Dict.{Dict, lookup, insert, lookup-insert}
use maintune.Json.{Fields, end, field, str}
use maintune.Store.{Env}
use maintune.Broker.{BrokerDb}
use maintune.Manager.Finalizers.{
  Outcome, answered, failed, row, failed_row, is_completed, invocation_of, begin_finalizer,
  end_finalizer, noted, finalizer_event, set_row, finalize_one,
}

-- A round for the plugin: its clock, the id that is drawn, and what the call comes to.
pub record Attempt : Type 0 where
  pub env : Env
  pub new_id : String
  pub outcome : Outcome

module _ (task_id plugin_id id : String) (others : BrokerDb → BrokerDb) where
  abbrev pub round : Attempt → BrokerDb → Result String (BrokerDb × Option String)
  round a s = finalize_one a.env a.new_id task_id plugin_id id (λ i. a.outcome) others s

  abbrev pub calls_of : Option String → List String
  calls_of none = []
  calls_of (some i) = i ∷ []

  -- The rounds one after the other, and the invocation ids of their calls.
  abbrev pub rounds : List Attempt → BrokerDb → Result String (BrokerDb × List String)
  rounds [] s = ok (s, [])
  rounds (a ∷ as') s =
      round a s >>= λ one. rounds as' one.0 >>= λ rest. ok (rest.0, calls_of one.1 ++ rest.1)

  -- What is called, as it should be.
  abbrev pub calls_until_answer : String → List Attempt → List String
  calls_until_answer i [] = []
  calls_until_answer i (a ∷ as') =
      let more = calls_until_answer i as' in
      elim a.outcome [ answered v ↦ i ∷ [] | failed e ↦ i ∷ more ]

  abbrev pub is_answered : List Attempt → Bool
  is_answered [] = false
  is_answered (a ∷ as') =
      let more = is_answered as' in elim a.outcome [ answered v ↦ true | failed e ↦ more ]

  abbrev row_of : BrokerDb → Option Fields
  row_of s = lookup id s.config

  -- What the sessions that run during a call leave alone.
  abbrev pub Keeps : Type 0
  Keeps = (s : BrokerDb) → lookup id (others s).config ≡ lookup id s.config

  found : (f : Fields) (d : Dict Fields) → lookup id (insert id f d) ≡ some f
  found f d = ground (arith, lookup-insert id id f d)

  -- A row that a call may still be made for, under the id i.
  record IsDue (new_id i : String) (s : BrokerDb) : Type 0 where
    open_row : is_completed (row_of s) ≡ false
    same_id : invocation_of new_id (row_of s) ≡ i

  begin_due :
      (new_id i : String) (s : BrokerDb)
      → IsDue new_id i s
      → begin_finalizer new_id id s
        ≡ some (record s { config = insert id (row "pending" i) s.config }, i)
  unfolding begin_finalizer
  begin_due new_id i s due = ground (arith, due.open_row, due.same_id)

  -- The row that a call leaves.
  abbrev pub row_after : String → Outcome → Fields
  row_after i (answered v) = row "completed" i
  row_after i (failed e) = failed_row i e

  set_row-ok :
      (f old : Fields) (s : BrokerDb)
      → row_of s ≡ some old
      → set_row id f s ≡ ok (record s { config = insert id f s.config })
  set_row-ok f old s h = ground arith

  end_lem :
      (env : Env) (i : String) (o : Outcome) (old : Fields) (s : BrokerDb)
      → row_of s ≡ some old
      → (s' : BrokerDb) × (end_finalizer env task_id plugin_id id i o s ≡ ok s')
        × (row_of s' ≡ some (row_after i o))
  unfolding end_finalizer
  end_lem env i (answered v) old s h = (
    noted env task_id "plugin_finalizer_completed" (finalizer_event plugin_id i end)
        (record s { config = insert id (row "completed" i) s.config }),
    rw (set_row-ok (row "completed" i) old s h) refl,
    found (row "completed" i) s.config,
  )
  end_lem env i (failed e) old s h = (
    noted env task_id "plugin_finalizer_incomplete"
        (finalizer_event plugin_id i (field "error_type" (str e) end))
        (record s { config = insert id (failed_row i e) s.config }),
    rw (set_row-ok (failed_row i e) old s h) refl,
    found (failed_row i e) s.config,
  )

  round_begun :
      (a : Attempt) (i : String) (s begun s' : BrokerDb)
      → begin_finalizer a.new_id id s ≡ some (begun, i)
      → end_finalizer a.env task_id plugin_id id i a.outcome (others begun) ≡ ok s'
      → round a s ≡ ok (s', some i)
  unfolding finalize_one
  round_begun a i s begun s' begins ends = ground arith

  -- A round for a row that is due calls the plugin.
  round_due :
      Keeps
      → (a : Attempt) (i : String) (s : BrokerDb) → IsDue a.new_id i s
      → (s' : BrokerDb) × (round a s ≡ ok (s', some i)) × (row_of s' ≡ some (row_after i a.outcome))
  round_due keeps a i s due =
      let begun : BrokerDb = record s { config = insert id (row "pending" i) s.config } in
      let (s', ends, holds) =
        end_lem a.env i a.outcome (row "pending" i) (others begun)
          (keeps begun ∙ found (row "pending" i) s.config) in
      (s', round_begun a i s begun s' (begin_due a.new_id i s due) ends, holds)

  -- A round for a row that is completed changes nothing.
  round_completed :
      (a : Attempt) (s : BrokerDb) → is_completed (row_of s) ≡ true → round a s ≡ ok (s, none)
  unfolding finalize_one begin_finalizer
  round_completed a s h = ground arith

  rounds_completed :
      (as' : List Attempt) (s : BrokerDb)
      → is_completed (row_of s) ≡ true
      → rounds as' s ≡ ok (s, [])
  rounds_completed [] s h = refl
  rounds_completed (a ∷ as') s h = rw (round_completed a s h, rounds_completed as' s h) refl

  failed-IsDue :
      (new_id i e : String) (s : BrokerDb)
      → i ≢ ""
      → row_of s ≡ some (failed_row i e)
      → IsDue new_id i s
  unfolding string_eq
  failed-IsDue new_id i e s nonempty h = record {
    open_row = ap is_completed h;
    same_id = ap (invocation_of new_id) h ∙ own i nonempty;
  }
    where
      own : (j : String) → j ≢ "" → invocation_of new_id (some (failed_row j e)) ≡ j
      own j full = ground arith

  -- The result of a sequence of rounds: its calls, and whether the row is completed.
  abbrev pub Finalized : String → List Attempt → BrokerDb → Type 0
  Finalized i as' s =
      (s' : BrokerDb) × (rounds as' s ≡ ok (s', calls_until_answer i as'))
      × (is_completed (row_of s') ≡ is_answered as')

  rounds_step :
      (i : String) (o : Outcome) (a : Attempt) (as' : List Attempt) (s s1 : BrokerDb)
      → a.outcome ≡ o
      → round a s ≡ ok (s1, some i)
      → row_of s1 ≡ some (row_after i o)
      → ((e : String) → o ≡ failed e → Finalized i as' s1)
      → Finalized i (a ∷ as') s
  rounds_step i (answered v) a as' s s1 comes called left next = (
    s1,
    rw (called, rounds_completed as' s1 (done i left)) (rw comes refl),
    done i left ∙ rw comes refl,
  )
    where
      done : (i : String) → row_of s1 ≡ some (row "completed" i) → is_completed (row_of s1) ≡ true
      done i h = ground arith
  rounds_step i (failed e) a as' s s1 comes called left next =
      let (s', runs, ends) = next e refl in
      (s', rw (called, runs) (rw comes refl), ends ∙ rw comes refl)

  rounds_due :
      Keeps
      → (i : String) → i ≢ ""
      → (as' : List Attempt) (s : BrokerDb) → ((new_id : String) → IsDue new_id i s)
      → Finalized i as' s
  rounds_due keeps i nonempty [] s due = (s, refl, (due i).open_row)
  rounds_due keeps i nonempty (a ∷ as') s due =
      let (s1, called, left) = round_due keeps a i s (due a.new_id) in
      rounds_step i a.outcome a as' s s1 refl called left λ e fails.
        rounds_due keeps i nonempty as' s1 λ new_id.
          failed-IsDue new_id i e s1 nonempty (left ∙ ap (λ o. some (row_after i o)) fails)

  -- The first rounds of a task's attempt call the finalizer until it answers, all under the id that the first one
  -- drew, and the row is completed exactly when it answered. Other sessions leave the row alone.
  pub finalizer_rounds :
      Keeps
      → (a : Attempt) (as' : List Attempt) (s : BrokerDb) → lookup id s.config ≡ none
      → a.new_id ≢ ""
      → Finalized a.new_id (a ∷ as') s
  finalizer_rounds keeps a as' s fresh nonempty =
      let due : IsDue a.new_id a.new_id s = record {
        open_row = ap is_completed fresh;
        same_id = ap (invocation_of a.new_id) fresh;
      } in
      let (s1, called, left) = round_due keeps a a.new_id s due in
      rounds_step a.new_id a.outcome a as' s s1 refl called left λ e fails.
        rounds_due keeps a.new_id nonempty as' s1 λ new_id.
          failed-IsDue new_id a.new_id e s1 nonempty
            (left ∙ ap (λ o. some (row_after a.new_id o)) fails)
