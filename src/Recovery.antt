-- ===== src/Recovery.antt =====
-- The module of backend/maintainer/review_recovery.py.
pub mod Remote
pub mod Snapshot
pub mod Recover
pub mod Exclusive
pub mod Tests
