-- ===== src/Migration/Again.antt =====
-- The JSON migration of backend/maintainer/db.py, made once and made again.
use maintune.Base.{
  ◌≡◌, ◌≢◌, refl, sym, ap, ◌∙◌, String, true, Option, none, some, List, [], ◌∷◌, arith, ltb, false,
  if◌then◌else◌, ◌==◌, string_eq, contains, Bool-cases, Option-cases, inl, inr,
}
use mathlib.Core.Path.{subst}
use text.Mathlib.TextEquality.{eq_iff}
use maintune.Base.Result.{Result, ok, err, >>=-eq-ok, ok-injective, Result-cases}
use maintune.Json.{
  Value, null, bool, int, str, list, dict, float, Items, nil, cons, Fields, end, get, put, without,
  has_key,
}
use maintune.Json.Entries.{get-put, get-without, has_key-put, without_absent}
use maintune.Migration.{
  MigrationDb, model_of, models_of, migrate_provider, given, fixed_steps, timeouts, replace_old,
  is_text, has_text, each_provider, migrate_json, second, iterated, rewritten, set_default,
  migrate_general, migrate_agent, each_row, migrate_optional, migrate,
}

no_text : (v : Value) → is_text (model_of v) ≡ false
no_text null = refl
no_text (bool b) = refl
no_text (int z) = refl
no_text (float z k) = refl
no_text (str s) = refl
no_text (list xs) = refl
no_text (dict fs) = refl

no_texts : (xs : Items) → has_text (models_of xs) ≡ false
no_texts nil = refl
no_texts (cons v vs) = ground (arith, no_text v, no_texts vs)

ok_differs : {A : Type 0} (r : Result String A) (x : A) (e : String) → r ≡ ok x → r ≡ err e → ⊥
ok_differs r x e one other = cc

provider_unmodelled : (fs : Fields) → get "models" fs ≡ none → migrate_provider fs ≡ ok fs
unfolding migrate_provider
provider_unmodelled fs e = ground arith

provider_iterated :
    (v : Value) (xs : Items) (fs : Fields)
    → get "models" fs ≡ some v
    → iterated v ≡ ok xs
    → migrate_provider fs ≡ ok (rewritten xs fs)
unfolding migrate_provider
provider_iterated v xs fs e f = ground arith

provider_refused :
    (v : Value) (e : String) (fs : Fields)
    → get "models" fs ≡ some v
    → iterated v ≡ err e
    → migrate_provider fs ≡ err e
unfolding migrate_provider
provider_refused v e fs h f = ground arith

rewritten_again :
    (xs : Items) (fs : Fields)
    → migrate_provider fs ≡ ok (rewritten xs fs)
    → migrate_provider (rewritten xs fs) ≡ ok (rewritten xs fs)
rewritten_again xs fs h = elim (Bool-cases (has_text xs)) [
  | inl texts ↦
      let new : Fields = put "models" (list (models_of xs)) fs in
      let held : get "models" new ≡ some (list (models_of xs)) =
        ground (arith, get-put "models" "models" (list (models_of xs)) fs) in
      let kept : rewritten (models_of xs) new ≡ new = rw (no_texts xs) refl in
      rw texts (provider_iterated (list (models_of xs)) (models_of xs) new held refl ∙ ap ok kept)
  | inr plain ↦
      let kept : rewritten xs fs ≡ fs = rw plain refl in
      subst (λ y. migrate_provider y ≡ ok (rewritten xs fs)) (sym kept) h
]

-- A rewritten provider is left alone.
provider_again : (fs new : Fields) → migrate_provider fs ≡ ok new → migrate_provider new ≡ ok new
provider_again fs new h = elim (Option-cases (get "models" fs)) [
  | inl e ↦
      let kept = provider_unmodelled fs e in
      let same = ok-injective fs new (sym kept ∙ h) in
      subst (λ y. migrate_provider y ≡ ok y) same kept
  | inr (v, e) ↦ elim (Result-cases (iterated v)) [
    | inl (x, f) ↦
        let refused = provider_refused v x fs e f in
        absurd (ok_differs (migrate_provider fs) new x h refused)
    | inr (xs, f) ↦
        let once = provider_iterated v xs fs e f in
        let same = ok-injective (rewritten xs fs) new (sym once ∙ h) in
        subst (λ y. migrate_provider y ≡ ok y) same (rewritten_again xs fs once)
  ]
]

providers_again :
    (rows new : List (String × Fields)) → each_provider rows ≡ ok new → each_provider new ≡ ok new
providers_again [] new h =
    subst (λ y. each_provider y ≡ ok y) (ok-injective {E = String} [] new h) refl
providers_again ((id, fs) ∷ rows) new h =
    let (one, first, after) = >>=-eq-ok (migrate_provider fs) _ h in
    let (others, later, same) = >>=-eq-ok (each_provider rows) _ after in
    let again = provider_again fs one first in
    let more = providers_again rows others later in
    subst (λ y. each_provider y ≡ ok y) (ok-injective ((id, one) ∷ others) new same)
      (rw (again, more) refl)

migrate_agent_twice : (fs : Fields) → migrate_agent (migrate_agent fs) ≡ migrate_agent fs
unfolding migrate_agent
migrate_agent_twice fs = ground (arith, has_key-put "runtime" "runtime" (dict end) fs)

set_default_has :
    (j k : String) (fs : Fields)
    → has_key j (set_default k fs) ≡ (if j == k then true else has_key j fs)
set_default_has j k fs = ground (arith, has_key-put j k (dict end) fs)

get-set_default : (j k : String) (fs : Fields) → j ≢ k → get j (set_default k fs) ≡ get j fs
get-set_default j k fs differ = ground (arith, get-put j k (dict end) fs)

get-replace_old :
    (j k : String) (f : Value → Value) (o : Option Value) (fs : Fields)
    → j ≢ k
    → get j (replace_old k f o fs) ≡ get j fs
get-replace_old j k f none fs differ = refl
get-replace_old j k f (some old) fs differ = ground (arith, get-put j k (f old) fs)

-- The settings after both legacy values are replaced.
abbrev replaced : Fields → Fields
replaced old = replace_old "timeouts" timeouts (given (get "timeout" old)) (
    replace_old "steps" fixed_steps (given (get "max_steps" old))
      (without ("max_steps" ∷ "timeout" ∷ []) old))

get-replaced :
    (j : String) (old : Fields)
    → j ≢ "steps"
    → j ≢ "timeouts"
    → get j (replaced old) ≡ (if contains ("max_steps" ∷ "timeout" ∷ []) j then none else get j old)
get-replaced j old a b =
    get-replace_old j "timeouts" timeouts (given (get "timeout" old)) _ b
    ∙ (get-replace_old j "steps" fixed_steps (given (get "max_steps" old)) _ a
        ∙ get-without j ("max_steps" ∷ "timeout" ∷ []) old)

get-migrate_general :
    (j : String) (old : Fields)
    → j ≢ "reasoning"
    → j ≢ "generation"
    → get j (migrate_general old) ≡ get j (replaced old)
unfolding migrate_general
get-migrate_general j old a b =
    get-set_default j "generation" _ b ∙ get-set_default j "reasoning" (replaced old) a

no_max_steps : (old : Fields) → get "max_steps" (migrate_general old) ≡ none
unfolding string_eq
no_max_steps old =
    get-migrate_general "max_steps" old (ground (arith, eq_iff "max_steps" "reasoning"))
      (ground (arith, eq_iff "max_steps" "generation"))
    ∙ get-replaced "max_steps" old (ground (arith, eq_iff "max_steps" "steps"))
        (ground (arith, eq_iff "max_steps" "timeouts"))

no_timeout : (old : Fields) → get "timeout" (migrate_general old) ≡ none
unfolding string_eq
no_timeout old =
    get-migrate_general "timeout" old (ground (arith, eq_iff "timeout" "reasoning"))
      (ground (arith, eq_iff "timeout" "generation"))
    ∙ get-replaced "timeout" old (ground (arith, eq_iff "timeout" "steps"))
        (ground (arith, eq_iff "timeout" "timeouts"))

-- Settings that have no legacy value and have both defaults are left alone.
new_kept :
    (new : Fields)
    → get "max_steps" new ≡ none
    → get "timeout" new ≡ none
    → has_key "reasoning" new ≡ true
    → has_key "generation" new ≡ true
    → migrate_general new ≡ new
unfolding migrate_general
new_kept new a b c d = ground (arith, without_absent "max_steps" "timeout" new)

migrate_general_twice : (old : Fields) → migrate_general (migrate_general old) ≡ migrate_general old
unfolding migrate_general
migrate_general_twice old =
    new_kept (migrate_general old) (no_max_steps old) (no_timeout old) (has_reasoning old)
      (has_generation old)
  where
    has_generation : (fs : Fields) → has_key "generation" (migrate_general fs) ≡ true
    has_generation fs =
        ground
          (arith, set_default_has "generation" "generation" (set_default "reasoning" (replaced fs)))

    has_reasoning : (fs : Fields) → has_key "reasoning" (migrate_general fs) ≡ true
    has_reasoning fs = ground (
      arith,
      set_default_has "reasoning" "generation" (set_default "reasoning" (replaced fs)),
      set_default_has "reasoning" "reasoning" (replaced fs),
    )

each_row_twice :
    (f : Fields → Fields)
    → ((fs : Fields) → f (f fs) ≡ f fs)
    → (rows : List (String × Fields)) → each_row f (each_row f rows) ≡ each_row f rows
each_row_twice f twice [] = refl
each_row_twice f twice ((id, fs) ∷ rows) = ground (arith, twice fs, each_row_twice f twice rows)

optional_twice : (g : Option Fields) → migrate_optional (migrate_optional g) ≡ migrate_optional g
optional_twice none = refl
optional_twice (some fs) = ap some (migrate_general_twice fs)

-- The data after the transaction of version 3, with the version of the fourth.
abbrev migrated : MigrationDb → List (String × Fields) → MigrationDb
migrated db providers = record {
  version = 4;
  providers = providers;
  general = migrate_optional db.general;
  agents = each_row migrate_agent db.agents;
}

migrate-ok :
    (db : MigrationDb) (providers : List (String × Fields))
    → ltb db.version 3 ≡ true
    → each_provider db.providers ≡ ok providers
    → migrate db ≡ (migrated db providers, none)
unfolding migrate migrate_json
migrate-ok db providers old h = ground arith

migrate-err :
    (db : MigrationDb) (e : String)
    → ltb db.version 3 ≡ true
    → each_provider db.providers ≡ err e
    → migrate db ≡ (second db, some e)
unfolding migrate migrate_json
migrate-err db e old h = ground arith

migrate-new :
    (db : MigrationDb)
    → ltb db.version 3 ≡ false
    → migrate db ≡ (record db { version = if ltb db.version 4 then 4 else db.version }, none)
unfolding migrate migrate_json
migrate-new db new = ground arith

migrated_again :
    (db : MigrationDb) (rows : List (String × Fields))
    → ltb db.version 3 ≡ true
    → each_provider db.providers ≡ ok rows
    → migrate (record (migrated db rows) { version = db.version }) ≡ (migrated db rows, none)
migrated_again db rows old h =
    let again : MigrationDb = record (migrated db rows) { version = db.version } in
    migrate-ok again rows old (providers_again db.providers rows h)
    ∙ ap (λ (y : MigrationDb). (y, none))
        (ground (
          arith,
          each_row_twice migrate_agent migrate_agent_twice db.agents,
          optional_twice db.general,
        ))

again_after :
    (db : MigrationDb) (r : MigrationDb × Option String)
    → migrate db ≡ r
    → migrate (record r.0 { version = db.version }) ≡ r
    → migrate (record (migrate db).0 { version = db.version }) ≡ migrate db
again_after db r once twice =
    subst (λ (q : MigrationDb × Option String). migrate (record q.0 { version = db.version }) ≡ q)
      (sym once) twice

-- A migration that is made again from the version where it began changes nothing and ends in the same way.
pub migrate_repeated :
    (db : MigrationDb) → migrate (record (migrate db).0 { version = db.version }) ≡ migrate db
migrate_repeated db = elim (Bool-cases (ltb db.version 3)) [
  | inr new ↦ again_after db _ (migrate-new db new) (migrate-new db new)
  | inl old ↦ elim (Result-cases (each_provider db.providers)) [
    | inl (e, h) ↦ again_after db _ (migrate-err db e old h) (migrate-err db e old h)
    | inr (rows, h) ↦ again_after db _ (migrate-ok db rows old h) (migrated_again db rows old h)
  ]
]

set_default_keeps :
    (j k : String) (v : Value) (fs : Fields) → get j fs ≡ some v → get j (set_default k fs) ≡ some v
set_default_keeps j k v fs held = ground (arith, get-put j k (dict end) fs, eq_iff j k)

replace_old_keeps :
    (j k : String) (f : Value → Value) (o : Option Value) (v : Value) (fs : Fields)
    → get j fs ≡ some v
    → get j (replace_old k f o fs) ≡ some v
replace_old_keeps j k f none v fs held = held
replace_old_keeps j k f (some old) v fs held = ground (arith, get-put j k (f old) fs, eq_iff j k)

legacy_gone :
    (j : String) (old : Fields)
    → contains ("max_steps" ∷ "timeout" ∷ []) j ≡ true
    → get j (migrate_general old) ≡ none
legacy_gone j old legacy = ground (arith, no_max_steps old, no_timeout old)

-- The migration of the general settings keeps every value but those of the two legacy settings, which are gone.
pub migrate_general_kept :
    (j : String) (v : Value) (old : Fields)
    → get j old ≡ some v
    → get j (migrate_general old)
      ≡ (if contains ("max_steps" ∷ "timeout" ∷ []) j then none else some v)
unfolding migrate_general
migrate_general_kept j v old held = elim (Bool-cases (contains ("max_steps" ∷ "timeout" ∷ []) j)) [
  | inl legacy ↦ rw legacy (legacy_gone j old legacy)
  | inr kept ↦ rw kept (
      set_default_keeps j "generation" v _ (
        set_default_keeps j "reasoning" v _ (
          replace_old_keeps j "timeouts" timeouts (given (get "timeout" old)) v _ (
            replace_old_keeps j "steps" fixed_steps (given (get "max_steps" old)) v _
              (ground (arith, get-without j ("max_steps" ∷ "timeout" ∷ []) old))))))
]
