-- ===== src/Examples.antt =====
-- A concrete outside for the control plane, on which the theorems are applied and the code is run.
pub mod Archive
pub mod Backup
pub mod Restoration
pub mod Outside
pub mod Accounts
pub mod Forms
pub mod Guests
pub mod Logins
pub mod Settings
pub mod Clients
