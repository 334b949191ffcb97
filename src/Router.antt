-- ===== src/Router.antt =====
-- core/router.c: what targets are sent.
pub mod Network
pub mod Targets
pub mod Devices
pub mod Sending
