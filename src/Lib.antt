-- ===== src/Lib.antt =====
-- Maintune keeps GitHub repositories with language-model agents: webhooks queue tasks, a task runs agents
-- under a step budget, a controller decides what may be written to GitHub, plugins extend it, and an
-- administrator settles what was left uncertain. This library models the decisions of that controller.
--
-- The parts and their files, with the paths of the repository:
--
--   Store: the rows of backend/maintainer/db.py (Task, Outbox, Repository, Timeline), with the queries and
--     updates that the sessions of the other parts make. A session is a function on the store.
--   Actions (Review, Retry, Once, Performs): `TaskProcessor.reserve` and `TaskProcessor.github_action` of
--     backend/maintainer/tasks.py. Actions/Review.antt is the session that checks the identity of a review,
--     refuses a second one for a head or reuses a completed one; Actions/Retry.antt asks GitHub again before
--     a retry that an administrator authorized; Actions.antt reserves, claims, performs and settles.
--   Recovery (Remote, Snapshot, Recover, Exclusive): backend/maintainer/review_recovery.py, function by
--     function. `inspect_remote` is also what Actions/Retry.antt asks with.
--   Tasks (Restart, Exclusion): `change_status` and the begin of `process` of backend/maintainer/tasks.py,
--     with the restart in `lifespan`, `retry_task` and `recheck_task` of backend/maintainer/api.py.
--   Broker (Replay, References): `_owner_decision`, `_resolve_task` and `_short_task_reference` of the class
--     `PluginCapabilityBroker` and the data of `make_event` of backend/maintainer/plugin_system.py. Ids are
--     lower case, so that the prefix test of the database minds case like ours.
--   PluginApi: backend/maintainer/plugin_api_v2.py. Schema, Value and Config are `validate_schema`,
--     `validate_value` and `validate_config_schema`; Registration and Registry are the class
--     `PluginRegistry`; Hooks is `dispatch_hook` with the catalog `HOOKS`, and Invoke the calls of tools and
--     services. A schema is a JSON value, and
--     `Conforms` is the independent description of the values that it admits.
--   Runtime/Budget: the class `StepBudgetController` of backend/maintainer/runtime.py.
--   Policy (Merge, Owner, Triage): backend/maintainer/policy.py, with its regular expressions over the
--     matcher of Base/Regex.antt.
--   Settings: backend/maintainer/schemas.py (Schemas, Checks), config.py (Resolve), resets.py (Resets) and
--     `openai_compatible_parameters` of providers.py (Parameters); Steps, Defaults and Reserved hold the
--     theorems. A row of settings is the validated model, so a stored row that no longer validates is not
--     represented; counts are natural numbers.
--   Manager: backend/maintainer/plugin_manager.py. State holds what the class keeps in memory and its records,
--     Providers and Runtime are `enable` and `_stop_runtime`, Lifecycle the methods that change a plugin and the
--     heartbeat (Delay), Configuration the settings (Startable, Hidden), Views
--     what is shown of them (Masked), Invocations the calls of plugins and `_v2_core_call` (Counted, Declared), Tools
--     the tools of the code worker, Sessions the sessions of pages, Events `publish`, Reviews `_resume_review`,
--     GithubCalls `_github_call`, Finalizers `finalize_task` and Outbox the event queue (Fifo).
--   Packages (Archive, Yaml): the validators of a plugin manifest, `_safe_member`, `parse_manifest_yaml` and
--     the checks of an archive in `PluginPackageManager.validate` of plugin_system.py, and `safe_path` of
--     backend/maintainer/sandboxes.py.
--   Migration: the JSON rewrites in `migrate` of backend/maintainer/db.py.
--   Json: the JSON values that Python holds, with its `==` and the comparison of stored JSON.
--   Base: shared helpers, with lists, texts, integers, results and decidable equality.
--
-- Loops over lists are structural recursion, so no fuel is needed; the exceptions are `decimal`, whose
-- fuel of n + 1 steps bounds the number of digits of n, and `mapping_block` of Packages/Yaml.antt, whose fuel is
-- one step for a line and one more. The matcher of Base/Regex.antt is structural too.
--
-- Parameters: the GitHub client (`Remote`), the plugin calls (`invoker`, `request`), the vault (`encrypt`,
-- `decrypt`), the clock, new ids, sha256 of canonical JSON and `str` of rare values (`Env`), the Unicode tables
-- (`Unicode`), and what other sessions do to the store while a call is awaited (`others`, and the store that
-- `perform` returns). No theorem assumes anything of them beyond what it states.
--
-- Not modelled: HTTP routing, the GitHub client, encryption, mail, process and socket handling, the
-- upgrade of plugins, version checks, the limit of Python's recursion, the agents and their prompts and the plugin SDK. NaN and
-- infinite floats are left out of JSON values, and comparisons of clock readings are exact. Where a session
-- only reads and the next begins without waiting, the two are one step.
pub mod Base
pub mod Json
pub mod Manager
pub mod Policy
pub mod PluginApi
pub mod Runtime
pub mod Store
pub mod Recovery
pub mod Actions
pub mod Tasks
pub mod Broker
pub mod Packages
pub mod Migration
pub mod Settings
