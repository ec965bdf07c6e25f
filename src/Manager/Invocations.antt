-- ===== src/Manager/Invocations.antt =====
-- The calls of a plugin by `PluginManager` of backend/maintainer/plugin_manager.py: `_invoke_extension` with its
-- count of the calls under way, `invoke_provider`, `invoke_route`, and the choice that `_v2_core_call` makes for a
-- call of the Core by a plugin. What a process answers, and what else happens until it does, is a parameter.
pub mod Counted
pub mod Declared
pub mod Tests
use maintune.Base.{
  ℕ, zero, suc, ◌+◌, String, ◌<>◌, Bool, true, false, not, ◌&&◌, ◌||◌, Option, none, some, List, [],
  ◌∷◌, leb, map, if◌then◌else◌, ◌==◌, string_eq, nat_eq, contains,
}
use maintune.Base.Int.{ℤ, pos, negsuc}
use maintune.Base.Dict.{lookup, insert, erase}
use maintune.Base.Result.{ok, err, ◌>>=◌, ◌>>◌, raise_if}
use maintune.Base.Text.{codes, starts_with}
use maintune.Json.{
  Value, null, str, dict, Fields, end, field, get, truthy, value_or_null, list, items,
}
use maintune.Json.Equality.{eq_value}
use maintune.Store.{Env}
use maintune.PluginApi.Schema.{int_of, texts_of}
use maintune.PluginApi.Registration.{ExtensionRegistration}
use maintune.PluginApi.Registry.{get_registration}
use maintune.Packages.{PluginManifest, PluginDependency}
use maintune.Manager.State.{PluginManager, Managed, is_up, manifest_of}
use maintune.Manager.Reviews.{param}

-- `self.active_invocations.get(plugin_id, default)`
abbrev pub active_of : ℕ → String → PluginManager → ℕ
active_of default plugin_id m = elim (lookup plugin_id m.active_invocations) [
  | none ↦ default
  | some n ↦ n
]

-- `_invoke_extension` up to the request.
unfoldable pub begin_invocation : ExtensionRegistration → PluginManager → Managed PluginManager
begin_invocation r m = do
  raise_if (contains m.draining_plugins r.plugin_id) "Plugin is draining"
  raise_if (not (is_up r.plugin_id m)) "Plugin is not running"
  ok (record m {
    active_invocations = insert r.plugin_id (active_of 0 r.plugin_id m + 1) m.active_invocations;
  })

abbrev predecessor : ℕ → ℕ
predecessor zero = zero
predecessor (suc n) = n

-- Its `finally`; a count of zero is never stored, so that the difference is a natural number.
unfoldable pub finish_invocation : String → PluginManager → PluginManager
finish_invocation plugin_id m =
    let remaining = predecessor (active_of 1 plugin_id m) in
    record m {
      active_invocations =
          if remaining == 0
          then erase plugin_id m.active_invocations
          else insert plugin_id remaining m.active_invocations;
    }

-- The registration of an identifier.
abbrev pub registered : String → String → PluginManager → Managed ExtensionRegistration
registered identifier kind m = elim (get_registration identifier (some kind) m.registry) [
  | err e ↦ err "Extension is not registered"
  | ok r ↦ ok r
]

-- `registration.metadata.get(key) == text`
abbrev pub has_text : String → String → ExtensionRegistration → Bool
has_text key text r = eq_value (value_or_null (get key r.metadata)) (str text)

abbrev in_list : String → Value → Bool
in_list text (list xs) = contains (texts_of (items xs)) text
in_list text v = false

-- `isinstance(requested, int) and 1 <= requested <= 7200`, and the time that is then given.
abbrev exec_timeout : Option ℤ → Managed ℕ
exec_timeout (some (pos n)) =
    raise_if (not (leb 1 n && leb n 7200)) "Sandbox execution timeout is invalid" >> ok (n + 20)
exec_timeout z = err "Sandbox execution timeout is invalid"

abbrev pub provider_timeout : String → Fields → Managed ℕ
provider_timeout kind arguments =
    if kind == "sandbox" && eq_value (value_or_null (get "action" arguments)) (str "exec")
    then exec_timeout (int_of (value_or_null (get "timeout" arguments)))
    else ok 120

-- The checks of `invoke_provider`.
unfoldable pub prepare_provider :
    String → String → Fields → PluginManager → Managed (ExtensionRegistration × ℕ)
prepare_provider identifier kind arguments m = do
  r ← registered identifier "provider" m
  raise_if (not (has_text "provider_kind" kind r)) "Registered provider kind does not match"
  timeout ← provider_timeout kind arguments
  ok (r, timeout)

-- The checks of `invoke_route`.
unfoldable pub prepare_route :
    String → String → String → String → PluginManager → Managed ExtensionRegistration
prepare_route plugin_id name method access m = do
  r ← registered (plugin_id <> "/" <> name) "route" m
  raise_if
      (not (has_text "access" access r)
        || not (in_list method (value_or_null (get "methods" r.metadata))))
      "Plugin HTTP route is not available"
  ok r

abbrev route_arguments : String → Value → Fields → Fields
route_arguments method body headers =
    field "method" (str method) (field "body" body (field "headers" (dict headers) end))

module _
    (request : ExtensionRegistration
      → Fields
      → ℕ
      → PluginManager
      → PluginManager × Managed Value) where
  -- `_invoke_extension`
  unfoldable pub invoke_extension :
      ExtensionRegistration → Fields → ℕ → PluginManager → PluginManager × Managed Value
  invoke_extension r arguments timeout m = elim (begin_invocation r m) [
    | err e ↦ (m, err e)
    | ok begun ↦
        let (waited, answer) = request r arguments timeout begun in
        (finish_invocation r.plugin_id waited, answer)
  ]

  -- `invoke_provider`
  unfoldable pub invoke_provider :
      String → String → Fields → PluginManager → PluginManager × Managed Value
  invoke_provider identifier kind arguments m =
      elim (prepare_provider identifier kind arguments m) [
        | err e ↦ (m, err e)
        | ok call ↦ invoke_extension call.0 arguments call.1 m
      ]

  -- `invoke_route`
  unfoldable pub invoke_route :
      String
      → String
      → String
      → String
      → Value
      → Fields
      → PluginManager
      → PluginManager × Managed Value
  invoke_route plugin_id name method access body headers m =
      elim (prepare_route plugin_id name method access m) [
        | err e ↦ (m, err e)
        | ok r ↦ invoke_extension r (route_arguments method body headers) 30 m
      ]

-- What `_v2_core_call` does with a call: it goes to a service, to `_resume_review`, to `_github_call`, or to the
-- broker with a capability and an action.
pub data CoreCall : Type 0 where
  invokes_service : ExtensionRegistration → Value → CoreCall
  resumes_review : CoreCall
  calls_github : CoreCall
  calls_broker : String → String → CoreCall

-- `mapping`
abbrev core_methods : List (String × (String × String))
core_methods =
    ("task.status", ("task.read", "status"))
    ∷ ("task.list", ("task.read", "list"))
    ∷ ("task.get", ("task.read", "get"))
    ∷ ("repository.list", ("repository.read", "list"))
    ∷ ("repository.get", ("repository.read", "get"))
    ∷ ("owner_decision.submit", ("owner_decision.submit", "submit"))
    ∷ ("plugin.log", ("plugin.log", "log"))
    ∷ []

abbrev is_null : Value → Bool
is_null null = true
is_null v = false

-- `params.get("input") or {}`
abbrev service_input : Fields → Value
service_input params =
    let v = value_or_null (get "input" params) in if truthy v then v else dict end

-- The dependencies of a manifest by their ids.
abbrev pub dependency_ids : List PluginDependency → List String
dependency_ids ds = map (λ (d : PluginDependency). d.id) ds

-- The checks of a service call.
unfoldable pub prepare_service :
    Env → String → Fields → PluginManager → Managed ExtensionRegistration
prepare_service env plugin_id params m = do
  r ← registered (param env "service_id" params) "service" m
  caller ← manifest_of plugin_id m
  raise_if
      (not (r.plugin_id == plugin_id)
        && not (contains (dependency_ids caller.dependencies) r.plugin_id))
      "Service provider is not declared as a plugin dependency"
  let version = value_or_null (get "version" params)
  raise_if
      (not (is_null version) && not (eq_value version (value_or_null (get "version" r.metadata))))
      "Service version does not match"
  ok r

abbrev core_method : String → Managed CoreCall
core_method method = elim (lookup method core_methods) [
  | none ↦ err "Core API method is not available"
  | some entry ↦ ok (calls_broker entry.0 entry.1)
]

-- `_v2_core_call`
unfoldable pub v2_core_call : Env → String → String → Value → PluginManager → Managed CoreCall
v2_core_call env plugin_id method (dict params) m =
    if method == "service.call"
    then (prepare_service env plugin_id params m >>= λ r.
        ok (invokes_service r (service_input params)))
    else if method == "workflow.resume"
    then ok resumes_review
    else if starts_with (codes method) (codes "github.")
    then ok calls_github
    else core_method method
v2_core_call env plugin_id method v m = err "Core API parameters must be an object"
