-- ===== src/Wire/PacketTable/Network.antt =====
-- packet_table of lifx/wire_proto.c: packets without a handler.
use lightsd.Common.{List, [], ◌∷◌}
use lightsd.Wire.PacketType
use lightsd.Wire.PacketInfo.{PacketInfo, unimplemented}

abbrev pub unimplemented_network_rows : List PacketInfo
unimplemented_network_rows =
    unimplemented "GET_WIFI_STATE" PacketType.get_wifi_state
    ∷ unimplemented "SET_WIFI_STATE" PacketType.set_wifi_state
    ∷ unimplemented "WIFI_STATE" PacketType.wifi_state
    ∷ unimplemented "GET_ACCESS_POINTS" PacketType.get_access_points
    ∷ unimplemented "SET_ACCESS_POINTS" PacketType.set_access_points
    ∷ unimplemented "STATE_ACCESS_POINTS" PacketType.state_access_points
    ∷ unimplemented "GET_ACCESS_POINT" PacketType.get_access_point
    ∷ unimplemented "STATE_ACCESS_POINT" PacketType.state_access_point
    ∷ unimplemented "SET_ACCESS_POINT_BROADCAST" PacketType.set_access_point_broadcast
    ∷ unimplemented "GET_DIMMER_VOLTAGE" PacketType.get_dimmer_voltage
    ∷ unimplemented "STATE_DIMMER_VOLTAGE" PacketType.state_dimmer_voltage
    ∷ []
