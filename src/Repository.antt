-- ===== src/Repository.antt =====
-- The database behind the ports of common/ports, as backend/adapters/memory.py keeps it: a
-- dictionary of users and one of jobs. Values are copied in and out, so none is shared.
pub mod Database
pub mod Jobs
pub mod Users
pub mod Sweep
pub mod Invariant
pub mod Firestore
