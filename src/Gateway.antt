-- ===== src/Gateway.antt =====
-- lifx/gateway.h and lifx/gateway.c: the gateways, through which packets go to the bulbs.
pub mod State
pub mod Queue
pub mod TagIds
pub mod Send
pub mod Refcounts
pub mod Hardware
pub mod Bulbs
