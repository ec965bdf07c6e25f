-- ===== src/PluginApi/Invoke.antt =====
-- `invoke_tool` and `invoke_service` of `PluginRegistry` in backend/maintainer/plugin_api_v2.py. What a
-- call of the plugin returns, or the type of what it raises, is a parameter.
use maintune.Base.{
  ℕ, ◌≤◌, ◌≡◌, String, Bool, true, ◌&&◌, Option, none, some, List, [], ◌∷◌, min, arith, filter,
  if◌then◌else◌, ◌==◌, string_eq, nat_eq,
}
use mathlib.Core.Path.{subst}
use maintune.Base.Result.{Result, ok, err, ◌>>=◌, ◌>>◌, >>=-eq-ok, >>-eq-ok, ok-injective}
use maintune.Json.{Value, get, truthy}
use maintune.PluginApi.Value.{root, ValueError, validate_value, schema_fields}
use maintune.PluginApi.Value.Conforms.{Conforms}
use maintune.PluginApi.Value.Conforms.Correct.{validate_value-ok_iff}
use maintune.PluginApi.Registration.{ExtensionRegistration, RegistrationError}
use maintune.PluginApi.Registry.{PluginRegistry, get_registration, has_kind, only_one}

pub data CallError : Type 0 where
  not_registered : RegistrationError → CallError
  schema_error : ValueError → CallError
  key_error : String → CallError
  raised : String → CallError

abbrev Called : Type 0 → Type 0
Called A = Result CallError A

abbrev registered : String → String → PluginRegistry → Called ExtensionRegistration
registered identifier kind g = elim (get_registration identifier (some kind) g) [
  | err e ↦ err (not_registered e)
  | ok r ↦ ok r
]

abbrev pub validated : Value → Value → String → Called (Unit {0})
validated schema v place = elim (validate_value schema v (root place)) [
  | err e ↦ err (schema_error e)
  | ok u ↦ ok tt
]

-- `metadata["input_schema"]`
abbrev required_schema : ExtensionRegistration → Called Value
required_schema r = elim (get "input_schema" r.metadata) [
  | none ↦ err (key_error "input_schema")
  | some s ↦ ok s
]

-- `min(timeout or 30, 120)`
abbrev pub tool_limit : Option ℕ → ℕ
tool_limit none = 30
tool_limit (some n) = if n == 0 then 30 else min n 120

-- What is called, and how long it may take.
unfoldable pub prepare_tool :
    String → Value → Option ℕ → PluginRegistry → Called (ExtensionRegistration × ℕ)
prepare_tool identifier arguments timeout g = do
  registration ← registered identifier "tool" g
  schema ← required_schema registration
  validated schema arguments "input"
  ok (registration, tool_limit timeout)

-- A schema is checked only where there is one.
abbrev validated_by : Option Value → Value → String → Called (Unit {0})
validated_by none v place = ok tt
validated_by (some s) v place = if truthy s then validated s v place else ok tt

module _ (invoker : ExtensionRegistration → Value → ℕ → Result String Value) where
  abbrev invoked : ExtensionRegistration → Value → ℕ → Called Value
  invoked r v limit = elim (invoker r v limit) [ err e ↦ err (raised e) | ok answer ↦ ok answer ]

  unfoldable pub invoke_tool : String → Value → Option ℕ → PluginRegistry → Called Value
  invoke_tool identifier arguments timeout g = do
    call ← prepare_tool identifier arguments timeout g
    invoked call.0 arguments call.1

  unfoldable pub invoke_service : String → Value → PluginRegistry → Called Value
  invoke_service identifier arguments g = do
    registration ← registered identifier "service" g
    validated_by (get "input_schema" registration.metadata) arguments "input"
    result ← invoked registration arguments 30
    validated_by (get "output_schema" registration.metadata) result "result"
    ok result

only_one-ok :
    (rows : List ExtensionRegistration) (r : ExtensionRegistration)
    → only_one rows ≡ ok r
    → rows ≡ r ∷ []
unfolding only_one
only_one-ok [] r h = cc
only_one-ok (q ∷ []) r h = ground arith
only_one-ok (p ∷ q ∷ rs) r h = cc

filter-head :
    (p : ExtensionRegistration → Bool) (rs : List ExtensionRegistration) (r : ExtensionRegistration)
    → filter p rs ≡ r ∷ []
    → p r ≡ true
filter-head p [] r h = cc
filter-head p (q ∷ qs) r h = ground (arith, filter-head p qs r)

pub get_registration-ok :
    (identifier kind : String) (g : PluginRegistry) (r : ExtensionRegistration)
    → get_registration identifier (some kind) g ≡ ok r
    → (r.identifier ≡ identifier) × (r.kind ≡ kind)
unfolding get_registration
get_registration-ok identifier kind g r h =
    let rows =
      only_one-ok (filter (λ q. q.identifier == identifier && has_kind (some kind) q) g.entries) r
        h in
    let holds =
      filter-head (λ q. q.identifier == identifier && has_kind (some kind) q) g.entries r rows in
    ground (arith, holds)

registered-ok :
    (identifier kind : String) (g : PluginRegistry) (r : ExtensionRegistration)
    → registered identifier kind g ≡ ok r
    → get_registration identifier (some kind) g ≡ ok r
registered-ok identifier kind g r h = ground arith

required_schema-ok :
    (r : ExtensionRegistration) (schema : Value)
    → required_schema r ≡ ok schema
    → get "input_schema" r.metadata ≡ some schema
required_schema-ok r schema h = ground arith

tool_limit-le : (timeout : Option ℕ) → tool_limit timeout ≤ 120
tool_limit-le none = omega arith
tool_limit-le (some n) = ground arith

validated-Conforms :
    (schema v : Value) (place : String)
    → validated schema v place ≡ ok tt
    → Conforms (schema_fields schema) v
validated-Conforms schema v place h =
    ((validate_value-ok_iff schema v (root place)).0 (ground arith)).1

-- A tool is called only as the tool that was named, with arguments that conform to its input schema, and for
-- at most 120 seconds.
prepare_tool-Conforms :
    (identifier : String) (arguments : Value) (timeout : Option ℕ) (g : PluginRegistry)
    (r : ExtensionRegistration) (limit : ℕ)
    → prepare_tool identifier arguments timeout g ≡ ok (r, limit)
    → (r.identifier ≡ identifier)
      × (r.kind ≡ "tool")
      × (limit ≤ 120)
      × ((schema : Value) × (get "input_schema" r.metadata ≡ some schema)
          × Conforms (schema_fields schema) arguments)
unfolding prepare_tool
prepare_tool-Conforms identifier arguments timeout g r limit h =
    let a = >>=-eq-ok (registered identifier "tool" g) _ h in
    let b = >>=-eq-ok (required_schema a.0) _ a.2 in
    let c = >>-eq-ok (validated b.0 arguments "input") _ b.2 in
    let same = ok-injective (a.0, tool_limit timeout) (r, limit) c.1 in
    let named =
      get_registration-ok identifier "tool" g a.0 (registered-ok identifier "tool" g a.0 a.1) in
    subst
      (λ (q : ExtensionRegistration × ℕ).
        (q.0.identifier ≡ identifier)
        × (q.0.kind ≡ "tool")
        × (q.1 ≤ 120)
        × ((schema : Value) × (get "input_schema" q.0.metadata ≡ some schema)
            × Conforms (schema_fields schema) arguments))
      same
      (
        named.0,
        named.1,
        tool_limit-le timeout,
        (b.0, required_schema-ok a.0 b.0 b.1, validated-Conforms b.0 arguments "input" c.0),
      )
