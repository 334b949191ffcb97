-- ===== src/Wire/Header.antt =====
-- lifx/wire_proto.c: how the header of a packet is set up, encoded and decoded. A field of the packed
-- struct is the integer that the host reads there; the union `target` is its `tags`.
pub mod RoundTrip
pub mod OnWire
use mathlib.Core.List.{reverse}
use lightsd.Common.{
  ℕ, zero, suc, ◌+◌, ◌*◌, ◌%◌, ◌^◌, List, [], ◌∷◌, ◌++◌, Option, none, some, bit_and, bit_or, ◌==◌,
  if◌then◌else◌, replicate, Bool, not,
}
use lightsd.Wire.PacketInfo.{PacketInfo, packet_header_size}
use lightsd.Wire.Endian.{Host, of_le_bytes, htole, letoh, memory}

pub record Header : Type 0 where
  pub size : ℕ
  pub protocol : ℕ
  pub source : ℕ
  pub target : ℕ
  pub site : List ℕ
  pub flags : ℕ
  pub seqn : ℕ
  pub at_time : ℕ
  pub packet_type : ℕ
  pub reserved : List ℕ

abbrev pub protocol_v1 : ℕ
protocol_v1 = 0x400

abbrev pub protocol_version_mask : Host → ℕ
protocol_version_mask Host.little = 0x0fff
protocol_version_mask Host.big = 0xff0f

abbrev pub protocol_flags_mask : Host → ℕ
protocol_flags_mask Host.little = 0xf000
protocol_flags_mask Host.big = 0x00f0

abbrev pub protocol_addressable : Host → ℕ
protocol_addressable Host.little = 0x1000
protocol_addressable Host.big = 0x0010

abbrev pub protocol_tagged : Host → ℕ
protocol_tagged Host.little = 0x2000
protocol_tagged Host.big = 0x0020

-- enum lgtd_lifx_flags, of the field `flags`
abbrev pub flag_res_required : ℕ
flag_res_required = 1

abbrev pub flag_ack_required : ℕ
flag_ack_required = 2

-- enum lgtd_lifx_header_flags, of the argument `flags`
abbrev pub addressable : ℕ
addressable = 1

abbrev pub tagged : ℕ
tagged = 2

abbrev pub ack_required : ℕ
ack_required = 4

abbrev pub res_required : ℕ
res_required = 8

-- The union lgtd_lifx_target with the enum that selects its member.
pub data Target : Type 0 where
  site all_devices : Target
  tags : ℕ → Target
  device : List ℕ → Target

-- The target field after its six address bytes are written into eight zero bytes.
abbrev pub target_of_addr : Host → List ℕ → ℕ
target_of_addr Host.little addr = of_le_bytes (addr ++ (0 ∷ 0 ∷ []))
target_of_addr Host.big addr = of_le_bytes (reverse (addr ++ (0 ∷ 0 ∷ [])))

-- `flags & flag` as a condition
abbrev pub has_flag : ℕ → ℕ → Bool
has_flag flags flag = not (bit_and flags flag == 0)

-- The field `protocol`, from the arguments' flags.
unfoldable pub encode_protocol : Host → ℕ → ℕ
encode_protocol host flags =
    let base : ℕ = htole host 2 protocol_v1 in
    let with_addressable : ℕ =
      if has_flag flags addressable then bit_or base (protocol_addressable host) else base in
    if has_flag flags tagged
    then bit_or with_addressable (protocol_tagged host)
    else with_addressable

-- The field `flags`.
abbrev pub encode_flags : ℕ → ℕ → ℕ
encode_flags field flags =
    let with_ack : ℕ =
      if has_flag flags ack_required then bit_or field flag_ack_required else field in
    if has_flag flags res_required then bit_or with_ack flag_res_required else with_ack

unfoldable pub encode_header : Host → Header → ℕ → Header
encode_header host hdr flags = record hdr {
  size = htole host 2 hdr.size;
  protocol = encode_protocol host flags;
  target = if has_flag flags tagged then htole host 8 hdr.target else hdr.target;
  flags = encode_flags hdr.flags flags;
  at_time = htole host 8 hdr.at_time;
  packet_type = htole host 2 hdr.packet_type;
  source = htole host 4 hdr.source;
}

unfoldable pub decode_protocol : Host → ℕ → ℕ
decode_protocol host protocol =
    bit_or (letoh host 2 (bit_and protocol (protocol_version_mask host)))
      (bit_and protocol (protocol_flags_mask host))

unfoldable pub decode_header : Host → Header → Header
decode_header host hdr =
    let protocol : ℕ = decode_protocol host hdr.protocol in
    record hdr {
      size = letoh host 2 hdr.size;
      protocol = protocol;
      target =
          if has_flag protocol (protocol_tagged host) then letoh host 8 hdr.target else hdr.target;
      at_time = letoh host 8 hdr.at_time;
      packet_type = letoh host 2 hdr.packet_type;
      source = letoh host 4 hdr.source;
    }

-- The header before it is encoded: zeros, but for what the arguments say.
abbrev pub blank_header : Host → ℕ → Target → Option (List ℕ) → PacketInfo → Header
blank_header host client_id target site_addr info = record {
  size = (info.size + packet_header_size) % 2 ^ 16;
  protocol = 0;
  source = client_id;
  target = elim target [
    | site ↦ 0
    | all_devices ↦ 0
    | tags t ↦ t
    | device a ↦ target_of_addr host a
  ];
  site = elim site_addr [ none ↦ replicate 6 0 | some s ↦ s ];
  flags = 0;
  seqn = 0;
  at_time = 0;
  packet_type = info.type % 2 ^ 16;
  reserved = 0 ∷ 0 ∷ [];
}

abbrev pub header_flags : Target → ℕ
header_flags (device a) = bit_or addressable res_required
header_flags _ = bit_or (bit_or addressable res_required) tagged

-- lgtd_lifx_wire_setup_header, with the client id and the packet info that it looks up.
unfoldable pub setup_header : Host → ℕ → Target → Option (List ℕ) → PacketInfo → Header
unfolding encode_header
setup_header host client_id target site_addr info =
    encode_header host (blank_header host client_id target site_addr info) (header_flags target)

-- The bytes of the packed struct, as the host has it in memory and sends it.
unfoldable pub header_bytes : Host → Header → List ℕ
header_bytes host hdr =
    memory host 2 hdr.size
    ++ (memory host 2 hdr.protocol
        ++ (memory host 4 hdr.source
            ++ (memory host 8 hdr.target
                ++ (hdr.site
                    ++ (hdr.flags
                        ∷ hdr.seqn
                        ∷ (memory host 8 hdr.at_time
                            ++ (memory host 2 hdr.packet_type ++ hdr.reserved)))))))
