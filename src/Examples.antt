-- ===== src/Examples.antt =====
-- The theorems applied to concrete inputs.
pub mod Wire
pub mod Gateway
pub mod Tagging
pub mod Jsonrpc
pub mod Params
pub mod Router
pub mod Watchdog
pub mod Handling
pub mod Light
