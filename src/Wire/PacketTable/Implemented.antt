-- ===== src/Wire/PacketTable/Implemented.antt =====
-- packet_table of lifx/wire_proto.c: the packets of gateways and the first ones of bulbs.
use lightsd.Common.{List, [], ◌∷◌}
use lightsd.Wire.PacketType
use lightsd.Wire.PacketInfo.{
  PacketInfo, Decoder, Encoder, Handler, entry, sizeof_ip_firmware_info, sizeof_ip_state,
  sizeof_light_color, sizeof_light_status, sizeof_pan_gateway, sizeof_power_state,
  sizeof_tag_labels, sizeof_tags, sizeof_waveform,
}

abbrev pub gateway_and_light_rows : List PacketInfo
gateway_and_light_rows =
    entry "GET_PAN_GATEWAY" PacketType.get_pan_gateway 0 Decoder.none Encoder.none Handler.null
    ∷ entry "PAN_GATEWAY" PacketType.pan_gateway sizeof_pan_gateway Decoder.pan_gateway
        Encoder.pan_gateway Handler.pan_gateway
    ∷ entry "SET_TAG_LABELS" PacketType.set_tag_labels sizeof_tag_labels Decoder.none
        Encoder.tag_labels Handler.null
    ∷ entry "GET_TAG_LABELS" PacketType.get_tag_labels sizeof_tags Decoder.none Encoder.tags
        Handler.null
    ∷ entry "TAG_LABELS" PacketType.tag_labels sizeof_tag_labels Decoder.tag_labels Encoder.none
        Handler.tag_labels
    ∷ entry "SET_LIGHT_COLOR" PacketType.set_light_color sizeof_light_color Decoder.none
        Encoder.light_color Handler.null
    ∷ entry "SET_WAVEFORM" PacketType.set_waveform sizeof_waveform Decoder.none Encoder.waveform
        Handler.null
    ∷ entry "GET_LIGHT_STATUS" PacketType.get_light_state 0 Decoder.none Encoder.none Handler.null
    ∷ entry "LIGHT_STATUS" PacketType.light_status sizeof_light_status Decoder.light_status
        Encoder.none Handler.light_status
    ∷ entry "SET_POWER_STATE" PacketType.set_power_state sizeof_power_state Decoder.none
        Encoder.none Handler.null
    ∷ entry "POWER_STATE" PacketType.power_state sizeof_power_state Decoder.power_state Encoder.none
        Handler.power_state
    ∷ entry "SET_TAGS" PacketType.set_tags sizeof_tags Decoder.none Encoder.tags Handler.null
    ∷ entry "TAGS" PacketType.tags sizeof_tags Decoder.tags Encoder.none Handler.tags
    ∷ entry "GET_MESH_INFO" PacketType.get_mesh_info 0 Decoder.none Encoder.none Handler.null
    ∷ entry "MESH_INFO" PacketType.mesh_info sizeof_ip_state Decoder.ip_state Encoder.none
        Handler.ip_state
    ∷ entry "GET_MESH_FIRMWARE" PacketType.get_mesh_firmware 0 Decoder.none Encoder.none
        Handler.null
    ∷ entry "MESH_FIRMWARE" PacketType.mesh_firmware sizeof_ip_firmware_info
        Decoder.ip_firmware_info Encoder.none Handler.ip_firmware_info
    ∷ entry "GET_WIFI_INFO" PacketType.get_wifi_info 0 Decoder.none Encoder.none Handler.null
    ∷ entry "WIFI_INFO" PacketType.wifi_info sizeof_ip_state Decoder.ip_state Encoder.none
        Handler.ip_state
    ∷ entry "GET_WIFI_FIRMWARE_STATE" PacketType.get_wifi_firmware_state 0 Decoder.none Encoder.none
        Handler.null
    ∷ []
