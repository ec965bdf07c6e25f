-- ===== src/PluginApi.antt =====
-- backend/maintainer/plugin_api_v2.py: what a plugin may register, and how its hooks are called.
pub mod Schema
pub mod Value
pub mod Config
pub mod Registration
pub mod Registry
pub mod Hooks
pub mod Invoke
pub mod Tests
