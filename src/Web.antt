-- ===== src/Web.antt =====
-- control/src/ezopenpn/web.
pub mod App
pub mod Preauth
pub mod Browser
pub mod Hysteria
pub mod Proxy
