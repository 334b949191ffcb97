-- ===== src/Wire/PacketInfo.antt =====
-- lifx/wire_proto.h: the sizes of the packed structs, and `struct lgtd_lifx_packet_info` with its
-- function pointers as enumerations. An omitted initializer is 0.
use Prim.Native.String.{String}
use lightsd.Common.{ℕ, ◌+◌, ◌*◌}

abbrev pub label_size : ℕ
label_size = 32

abbrev pub addr_length : ℕ
addr_length = 6

abbrev pub packet_header_size : ℕ
packet_header_size = 2 + 2 + 4 + 8 + addr_length + 1 + 1 + 8 + 2 + 2

abbrev pub sizeof_light_status : ℕ
sizeof_light_status = 6 * 2 + label_size + 8

abbrev pub sizeof_power_state : ℕ
sizeof_power_state = 2

abbrev pub sizeof_pan_gateway : ℕ
sizeof_pan_gateway = 1 + 4

abbrev pub sizeof_light_color : ℕ
sizeof_light_color = 1 + 4 * 2 + 4

abbrev pub sizeof_waveform : ℕ
sizeof_waveform = 1 + 1 + 4 * 2 + 4 + 4 + 2 + 1

abbrev pub sizeof_tags : ℕ
sizeof_tags = 8

abbrev pub sizeof_label : ℕ
sizeof_label = label_size

abbrev pub sizeof_tag_labels : ℕ
sizeof_tag_labels = 8 + label_size

abbrev pub sizeof_ip_state : ℕ
sizeof_ip_state = 4 + 4 + 4 + 2

abbrev pub sizeof_ip_firmware_info : ℕ
sizeof_ip_firmware_info = 8 + 8 + 4

abbrev pub sizeof_product_info : ℕ
sizeof_product_info = 4 + 4 + 4

abbrev pub sizeof_runtime_info : ℕ
sizeof_runtime_info = 8 + 8 + 8

abbrev pub sizeof_ambient_light : ℕ
sizeof_ambient_light = 4

-- `none` is lgtd_lifx_wire_null_packet_encoder_decoder, which leaves the packet as it is.
pub data Decoder : Type 0 where
  none pan_gateway light_status power_state tags tag_labels : Decoder
  ip_state ip_firmware_info product_info runtime_info ambient_light : Decoder

pub data Encoder : Type 0 where
  none pan_gateway light_color waveform tags tag_labels : Encoder

-- The functions lgtd_lifx_gateway_handle_*; `null` does nothing, `enosys_packet_handler` logs.
pub data Handler : Type 0 where
  null enosys_packet_handler pan_gateway light_status power_state tag_labels tags : Handler
  ip_state ip_firmware_info product_info runtime_info bulb_label ambient_light : Handler

pub record PacketInfo : Type 0 where
  pub name : String
  pub type : ℕ
  pub size : ℕ
  pub decode : Decoder
  pub encode : Encoder
  pub handle : Handler

abbrev pub entry : String → ℕ → ℕ → Decoder → Encoder → Handler → PacketInfo
entry name type size decode encode handle = record {
  name = name;
  type = type;
  size = size;
  decode = decode;
  encode = encode;
  handle = handle;
}

-- The macro UNIMPLEMENTED.
abbrev pub unimplemented : String → ℕ → PacketInfo
unimplemented name type = entry name type 0 Decoder.none Encoder.none Handler.enosys_packet_handler
