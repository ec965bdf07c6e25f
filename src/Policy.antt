-- ===== src/Policy.antt =====
-- backend/maintainer/policy.py: the deterministic gates before any write.
pub mod Merge
pub mod Owner
pub mod Triage
pub mod Tests
