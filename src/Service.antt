-- ===== src/Service.antt =====
-- ice-rpc/src/locator.rs and shutdown.rs: the services of a process.
pub mod Order
pub mod Locator
pub mod Shutdown
