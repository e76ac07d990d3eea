-- ===== src/Profiles.antt =====
-- The profiles of control/src/ezopenpn/profiles.
pub mod Types
pub mod Tables
pub mod Repository
pub mod Service
pub mod Links
pub mod Runtime
pub mod Reconcile
pub mod Coordinator
