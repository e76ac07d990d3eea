-- ===== src/Security.antt =====
-- control/src/ezopenpn/security.
pub mod Secrets
pub mod Sessions
pub mod Throttle
pub mod Admin
