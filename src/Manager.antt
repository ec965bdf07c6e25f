-- ===== src/Manager.antt =====
-- `PluginManager` of backend/maintainer/plugin_manager.py, part by part.
pub mod State
pub mod Providers
pub mod Runtime
pub mod Lifecycle
pub mod Outbox
pub mod Configuration
pub mod Invocations
pub mod Tools
pub mod Sessions
pub mod Views
pub mod Events
pub mod Tests
pub mod Reviews
pub mod GithubCalls
pub mod Finalizers
