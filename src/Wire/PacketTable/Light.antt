-- ===== src/Wire/PacketTable/Light.antt =====
-- packet_table of lifx/wire_proto.c: packets without a handler.
use lightsd.Common.{List, [], ◌∷◌}
use lightsd.Wire.PacketType
use lightsd.Wire.PacketInfo.{PacketInfo, unimplemented}

abbrev pub unimplemented_light_rows : List PacketInfo
unimplemented_light_rows =
    unimplemented "GET_FACTORY_TEST_MODE" PacketType.get_factory_test_mode
    ∷ unimplemented "ECHO_REQUEST" PacketType.echo_request
    ∷ unimplemented "ECHO_RESPONSE" PacketType.echo_response
    ∷ unimplemented "SET_DIM_ABSOLUTE" PacketType.set_dim_absolute
    ∷ unimplemented "SET_DIM_RELATIVE" PacketType.set_dim_relative
    ∷ unimplemented "SET_RGBW" PacketType.set_rgbw
    ∷ unimplemented "GET_RAIL_VOLTAGE" PacketType.get_rail_voltage
    ∷ unimplemented "STATE_RAIL_VOLTAGE" PacketType.state_rail_voltage
    ∷ unimplemented "GET_TEMPERATURE" PacketType.get_temperature
    ∷ unimplemented "STATE_TEMPERATURE" PacketType.state_temperature
    ∷ unimplemented "SET_CALIBRATION_COEFFICIENTS" PacketType.set_calibration_coefficients
    ∷ unimplemented "SET_SIMPLE_EVENT" PacketType.set_simple_event
    ∷ unimplemented "GET_SIMPLE_EVENT" PacketType.get_simple_event
    ∷ unimplemented "STATE_SIMPLE_EVENT" PacketType.state_simple_event
    ∷ unimplemented "GET_POWER" PacketType.get_power
    ∷ unimplemented "SET_POWER" PacketType.set_power
    ∷ unimplemented "STATE_POWER" PacketType.state_power
    ∷ unimplemented "SET_WAVEFORM_OPTIONAL" PacketType.set_waveform_optional
    ∷ unimplemented "CONNECT_PLAIN" PacketType.connect_plain
    ∷ unimplemented "CONNECT_KEY" PacketType.connect_key
    ∷ unimplemented "STATE_CONNECT" PacketType.state_connect
    ∷ unimplemented "GET_AUTH_KEY" PacketType.get_auth_key
    ∷ unimplemented "SET_AUTH_KEY" PacketType.set_auth_key
    ∷ unimplemented "STATE_AUTH_KEY" PacketType.state_auth_key
    ∷ unimplemented "SET_KEEP_ALIVE" PacketType.set_keep_alive
    ∷ unimplemented "STATE_KEEP_ALIVE" PacketType.state_keep_alive
    ∷ unimplemented "SET_HOST" PacketType.set_host
    ∷ unimplemented "GET_HOST" PacketType.get_host
    ∷ unimplemented "STATE_HOST" PacketType.state_host
    ∷ []
