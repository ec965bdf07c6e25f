-- ===== src/Settings.antt =====
-- The settings of backend/maintainer/schemas.py, their resolution for an agent, their resets and the
-- parameters of a model request that they become.
pub mod Schemas
pub mod Checks
pub mod Resolve
pub mod Resets
pub mod Parameters
pub mod Steps
pub mod Defaults
pub mod Reserved
pub mod Tests
