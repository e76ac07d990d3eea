-- ===== src/Integrations.antt =====
-- control/src/ezopenpn/integrations.
pub mod Xray
pub mod Hysteria
pub mod Supervisor
