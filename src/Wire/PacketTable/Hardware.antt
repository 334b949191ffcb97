-- ===== src/Wire/PacketTable/Hardware.antt =====
-- packet_table of lifx/wire_proto.c: labels, versions and sensors of bulbs.
use lightsd.Common.{List, [], ◌∷◌}
use lightsd.Wire.PacketType
use lightsd.Wire.PacketInfo.{
  PacketInfo, Decoder, Encoder, Handler, entry, sizeof_ambient_light, sizeof_ip_firmware_info,
  sizeof_label, sizeof_product_info, sizeof_runtime_info,
}

abbrev pub hardware_rows : List PacketInfo
hardware_rows =
    entry "WIFI_FIRMWARE_STATE" PacketType.wifi_firmware_state sizeof_ip_firmware_info
      Decoder.ip_firmware_info Encoder.none Handler.ip_firmware_info
    ∷ entry "GET_VERSION" PacketType.get_version 0 Decoder.none Encoder.none Handler.null
    ∷ entry "VERSION_STATE" PacketType.version_state sizeof_product_info Decoder.product_info
        Encoder.none Handler.product_info
    ∷ entry "GET_INFO" PacketType.get_info 0 Decoder.none Encoder.none Handler.null
    ∷ entry "INFO_STATE" PacketType.info_state sizeof_runtime_info Decoder.runtime_info Encoder.none
        Handler.runtime_info
    ∷ entry "SET_BULB_LABEL" PacketType.set_bulb_label sizeof_label Decoder.none Encoder.none
        Handler.null
    ∷ entry "BULB_LABEL" PacketType.bulb_label sizeof_label Decoder.none Encoder.none
        Handler.bulb_label
    ∷ entry "GET_AMBIENT_LIGHT" PacketType.get_ambient_light 0 Decoder.none Encoder.none
        Handler.null
    ∷ entry "STATE_AMBIENT_LIGHT" PacketType.state_ambient_light sizeof_ambient_light
        Decoder.ambient_light Encoder.none Handler.ambient_light
    ∷ []
