-- ===== src/Wire.antt =====
-- lifx/wire_proto.h and lifx/wire_proto.c: what goes over the network.
pub mod TagIds
pub mod PacketType
pub mod PacketInfo
pub mod PacketTable
pub mod Endian
pub mod Header
pub mod Payloads
pub mod Receive
