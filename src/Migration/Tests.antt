-- ===== src/Migration/Tests.antt =====
-- A run of the migration.
use maintune.Base.{
  ◌≡◌, refl, String, contains, none, if◌then◌else◌, nat_eq, some, [], ◌∷◌, string_eq,
}
use maintune.Base.Int.{pos}
use maintune.Json.{null, int, str, list, cons, nil, end, field, get}
use maintune.Migration.{
  MigrationDb, models_of, migrate, migrate_provider, migrate_json, migrate_general,
}
use maintune.Migration.Again.{migrate_repeated, migrate_general_kept}

abbrev old : MigrationDb
old = record {
  version = 2;
  providers = ("p", field "models" (list (cons (str "m") nil)) end) ∷ [];
  general = some (field "max_steps" (int (pos 30)) end);
  agents = ("code_worker", end) ∷ [];
}

migrate_repeated_example : migrate (record (migrate old).0 { version = 2 }) ≡ migrate old
migrate_repeated_example = migrate_repeated old

-- A text in place of the list is read character by character.
abbrev named : MigrationDb
named = record old { providers = ("p", field "models" (str "ab") end) ∷ [] }

is_spelled :
    (migrate named).0.providers
    ≡ ("p", field "models" (list (models_of (cons (str "a") (cons (str "b") nil)))) end) ∷ []
unfolding migrate migrate_provider migrate_json string_eq nat_eq
is_spelled = refl

-- A provider whose models are null stops the migration at the second version.
abbrev broken : MigrationDb
broken = record old { providers = ("p", field "models" null end) ∷ [] }

is_rolled_back : migrate broken ≡ (broken, some "TypeError")
unfolding migrate migrate_provider migrate_json string_eq nat_eq
is_rolled_back = refl

prompt_held :
    get "prompt" (field "timeout" (int (pos 30)) (field "prompt" (str "p") end)) ≡ some (str "p")
unfolding string_eq
prompt_held = refl

migrate_general_kept_example :
    get "prompt" (migrate_general (field "timeout" (int (pos 30)) (field "prompt" (str "p") end)))
    ≡ (if contains {A = String} ("max_steps" ∷ "timeout" ∷ []) "prompt"
        then none
        else some (str "p"))
migrate_general_kept_example =
    migrate_general_kept "prompt" (str "p")
      (field "timeout" (int (pos 30)) (field "prompt" (str "p") end)) prompt_held
