-- ===== src/Examples/Wire.antt =====
-- The theorems about what goes over the network, on tags, headers and datagrams.
use lightsd.Common.{
  ◌∙◌, ◌≢◌, ℕ, ◌+◌, ◌≡◌, refl, ◌%◌, ◌^◌, List, [], ◌∷◌, ◌++◌, some, All, arith, replicate,
}
use lightsd.Wire.TagIds.{foreach_tag_id}
use lightsd.Wire.TagIds.Visit.{set_bits, foreach_tag_id-set_bits}
use lightsd.Wire.PacketType
use lightsd.Wire.PacketInfo.{PacketInfo, Decoder, Encoder, Handler, entry, packet_header_size}
use lightsd.Wire.PacketTable.{packet_table, get_packet_info}
use lightsd.Wire.PacketTable.Find.{row_of, row_list, get_packet_info-row_of}
use lightsd.Wire.Endian.{Host, htole, letoh, le_bytes, memory}
use lightsd.Wire.Endian.Laws.{letoh-htole, memory-htole}
use lightsd.Wire.Header.{
  Target, blank_header, decode_header, setup_header, header_bytes, flag_res_required,
}
use lightsd.Wire.Header.RoundTrip.{decoded_protocol, decode_header-setup_header}
use lightsd.Wire.Header.OnWire.{protocol_byte, target_bytes, header_bytes-setup_header}
use lightsd.Wire.Payloads.{
  LightColor, encode_light_color, light_color_bytes, Waveform, encode_waveform, waveform_bytes,
}
use lightsd.Wire.Payloads.OnWire.{light_payloads-encoded}
use lightsd.Wire.Receive.Sent.{received, on_datagram-setup_header}
use lightsd.Wire.Receive.{Round, on_datagram, Received, handle_receive}
use lightsd.Wire.Receive.Deliveries.{IsSound, handle_receive-IsSound}

foreach_tag_id-set_bits_example : foreach_tag_id 0x8000_0050 ≡ set_bits 0x8000_0050
foreach_tag_id-set_bits_example = foreach_tag_id-set_bits 0x8000_0050 (omega arith)

abbrev discovery_row : PacketInfo
discovery_row =
    entry "GET_PAN_GATEWAY" PacketType.get_pan_gateway 0 Decoder.none Encoder.none Handler.null

abbrev other_rows : List PacketInfo
unfolding packet_table
other_rows = elim packet_table [ [] ↦ [] | p ∷ ps ↦ ps ]

letoh-htole_example : letoh Host.big 2 (htole Host.big 2 0x1234) ≡ 0x1234
letoh-htole_example = letoh-htole Host.big 2 0x1234 (omega arith)

memory-htole_example : memory Host.big 4 (htole Host.big 4 0x12345678) ≡ le_bytes 4 0x12345678
memory-htole_example = memory-htole Host.big 4 0x12345678

abbrev test_site : List ℕ
test_site = 0xd0 ∷ 0x73 ∷ 0xd5 ∷ 1 ∷ 2 ∷ 3 ∷ []

decode_header-setup_header_example :
    decode_header Host.big
      (setup_header Host.big 7 (Target.tags 0x50) (some test_site) discovery_row)
    ≡ record (blank_header Host.big 7 (Target.tags 0x50) (some test_site) discovery_row) {
      protocol = decoded_protocol Host.big (Target.tags 0x50);
      flags = flag_res_required;
    }
decode_header-setup_header_example =
    decode_header-setup_header Host.big 7 (Target.tags 0x50) (some test_site) discovery_row
      (omega arith) (omega arith)

header_bytes-setup_header_example :
    header_bytes Host.big (setup_header Host.big 7 Target.site (some test_site) discovery_row)
    ≡ le_bytes 2 ((discovery_row.size + packet_header_size) % 2 ^ 16)
      ++ (0
          ∷ protocol_byte Target.site
          ∷ (le_bytes 4 7
              ++ (target_bytes Target.site
                  ++ (test_site
                      ++ (1
                          ∷ 0
                          ∷ (le_bytes 8 0
                              ++ (le_bytes 2 (discovery_row.type % 2 ^ 16) ++ (0 ∷ 0 ∷ []))))))))
header_bytes-setup_header_example =
    header_bytes-setup_header Host.big 7 Target.site test_site discovery_row tt

-- A POWER_STATE packet as a bulb sends it, and one of an unknown type.
abbrev power_packet : List ℕ
power_packet =
    38
    ∷ 0
    ∷ 0
    ∷ 0x14
    ∷ (replicate 12 0 ++ (test_site ++ (replicate 10 0 ++ (22 ∷ 0 ∷ 0 ∷ 0 ∷ 0xff ∷ 0xff ∷ []))))

abbrev unknown_packet : List ℕ
unknown_packet = 36 ∷ 0 ∷ 0 ∷ 0x14 ∷ (replicate 28 0 ++ (0xff ∷ 0xff ∷ 0 ∷ 0 ∷ []))

abbrev arrivals : List Received
arrivals =
    Received.interrupted
    ∷ Received.datagram power_packet
    ∷ Received.datagram unknown_packet
    ∷ Received.would_block
    ∷ []

handle_receive-IsSound_example :
    All (IsSound Host.little row_list) (handle_receive Host.little row_list arrivals).1
handle_receive-IsSound_example = handle_receive-IsSound Host.little row_list arrivals

abbrev tags_row : PacketInfo
tags_row = entry "SET_TAGS" PacketType.set_tags 8 Decoder.none Encoder.tags Handler.null

tags_row_found : get_packet_info row_list PacketType.set_tags ≡ some tags_row
unfolding packet_table
tags_row_found = get_packet_info-row_of row_list PacketType.set_tags ∙ found
  where
    found : row_of PacketType.set_tags packet_table ≡ some tags_row
    found = refl

set_tags_ne : PacketType.set_tags ≢ PacketType.get_pan_gateway
set_tags_ne e = absurd (omega (arith, e))

on_datagram-setup_header_example :
    on_datagram Host.big row_list (
      header_bytes Host.big (setup_header Host.big 7 (Target.tags 0x50) (some test_site) tags_row)
      ++ replicate 8 1)
    ≡ Round.deliver (record {
      info = tags_row;
      hdr = received Host.big 7 (Target.tags 0x50) test_site tags_row;
      pkt = replicate 8 1;
    })
on_datagram-setup_header_example =
    on_datagram-setup_header Host.big row_list 7 (Target.tags 0x50) test_site tags_row
      (replicate 8 1) (omega arith) (omega arith) tt refl refl (omega arith) (omega arith)
      set_tags_ne tags_row_found

abbrev warm : LightColor
warm = record {
  stream = 0;
  hue = 0x1234;
  saturation = 0xffff;
  brightness = 0x8000;
  kelvin = 3500;
  transition = 1000;
}

abbrev pulse : Waveform
pulse = record {
  stream = 0;
  transient = 1;
  hue = 0x1234;
  saturation = 0xffff;
  brightness = 0x8000;
  kelvin = 3500;
  period = 1000;
  cycles = 0x40a0_0000;
  skew_ratio = 0x7fff;
  waveform = 4;
}

light_payloads-encoded_example :
    (light_color_bytes Host.big (encode_light_color Host.big warm)
      ≡ 0
        ∷ (le_bytes 2 0x1234
            ++ (le_bytes 2 0xffff ++ (le_bytes 2 0x8000 ++ (le_bytes 2 3500 ++ le_bytes 4 1000)))))
    × (waveform_bytes Host.big (encode_waveform Host.big pulse)
        ≡ 0
          ∷ 1
          ∷ (le_bytes 2 0x1234
              ++ (le_bytes 2 0xffff
                  ++ (le_bytes 2 0x8000
                      ++ (le_bytes 2 3500
                          ++ (le_bytes 4 1000
                              ++ (le_bytes 4 0x40a0_0000 ++ (le_bytes 2 0x7fff ++ (4 ∷ [])))))))))
light_payloads-encoded_example = light_payloads-encoded Host.big warm pulse
