-- ===== src/Wire/PacketType.antt =====
-- enum lgtd_lifx_packet_type of lifx/wire_proto.h.
mod Device
mod Light
pub use Device.*
pub use Light.*
