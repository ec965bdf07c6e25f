-- ===== src/Runtime.antt =====
-- backend/maintainer/runtime.py: the step budget of an agent run.
pub mod Budget
