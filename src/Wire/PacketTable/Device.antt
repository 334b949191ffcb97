-- ===== src/Wire/PacketTable/Device.antt =====
-- packet_table of lifx/wire_proto.c: packets without a handler.
use lightsd.Common.{List, [], ◌∷◌}
use lightsd.Wire.PacketType
use lightsd.Wire.PacketInfo.{PacketInfo, unimplemented}

abbrev pub unimplemented_device_rows : List PacketInfo
unimplemented_device_rows =
    unimplemented "GET_TIME" PacketType.get_time
    ∷ unimplemented "SET_TIME" PacketType.set_time
    ∷ unimplemented "TIME_STATE" PacketType.time_state
    ∷ unimplemented "GET_RESET_SWITCH_STATE" PacketType.get_reset_switch_state
    ∷ unimplemented "RESET_SWITCH_STATE" PacketType.reset_switch_state
    ∷ unimplemented "GET_DUMMY_PAYLOAD" PacketType.get_dummy_payload
    ∷ unimplemented "SET_DUMMY_PAYLOAD" PacketType.set_dummy_payload
    ∷ unimplemented "STATE_DUMMY_PAYLOAD" PacketType.state_dummy_payload
    ∷ unimplemented "GET_BULB_LABEL" PacketType.get_bulb_label
    ∷ unimplemented "GET_MCU_RAIL_VOLTAGE" PacketType.get_mcu_rail_voltage
    ∷ unimplemented "MCU_RAIL_VOLTAGE" PacketType.mcu_rail_voltage
    ∷ unimplemented "REBOOT" PacketType.reboot
    ∷ unimplemented "SET_FACTORY_TEST_MODE" PacketType.set_factory_test_mode
    ∷ unimplemented "DISABLE_FACTORY_TEST_MODE" PacketType.disable_factory_test_mode
    ∷ unimplemented "STATE_FACTORY_TEST_MODE" PacketType.state_factory_test_mode
    ∷ unimplemented "STATE_SITE" PacketType.state_site
    ∷ unimplemented "STATE_REBOOT" PacketType.state_reboot
    ∷ unimplemented "SET_PAN_GATEWAY" PacketType.set_pan_gateway
    ∷ unimplemented "ACK" PacketType.ack
    ∷ unimplemented "SET_FACTORY_RESET" PacketType.set_factory_reset
    ∷ unimplemented "STATE_FACTORY_RESET" PacketType.state_factory_reset
    ∷ unimplemented "GET_LOCATION" PacketType.get_location
    ∷ unimplemented "SET_LOCATION" PacketType.set_location
    ∷ unimplemented "STATE_LOCATION" PacketType.state_location
    ∷ unimplemented "GET_GROUP" PacketType.get_group
    ∷ unimplemented "SET_GROUP" PacketType.set_group
    ∷ unimplemented "STATE_GROUP" PacketType.state_group
    ∷ unimplemented "GET_OWNER" PacketType.get_owner
    ∷ unimplemented "SET_OWNER" PacketType.set_owner
    ∷ unimplemented "STATE_OWNER" PacketType.state_owner
    ∷ []
