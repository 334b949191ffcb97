-- ===== src/Wire/Header/RoundTrip.antt =====
-- lgtd_lifx_wire_decode_header after lgtd_lifx_wire_setup_header.
use lightsd.Common.{
  ℕ, ◌+◌, ◌%◌, ◌^◌, ◌<◌, ◌≡◌, refl, List, Option, bit_or, arith, Bool, true, false, if◌then◌else◌,
}
use lightsd.Wire.PacketInfo.{PacketInfo, packet_header_size}
use lightsd.Wire.Endian.{Host, htole, letoh, swap_bytes}
use lightsd.Wire.Endian.Laws.{letoh-htole}
use lightsd.Wire.Header.{
  has_flag, tagged, encode_flags, Target, protocol_v1, protocol_addressable, protocol_tagged,
  blank_header, header_flags, encode_protocol, decode_header, decode_protocol, setup_header,
  flag_res_required,
}

-- What the receiver makes of the protocol field: the version, addressable, and tagged unless the
-- packet is for one device.
abbrev pub decoded_protocol : Host → Target → ℕ
decoded_protocol host (Target.device a) = bit_or protocol_v1 (protocol_addressable host)
decoded_protocol host _ =
    bit_or (bit_or protocol_v1 (protocol_addressable host)) (protocol_tagged host)

decode_protocol-encode_protocol :
    (host : Host) (target : Target)
    → decode_protocol host (encode_protocol host (header_flags target))
      ≡ decoded_protocol host target
unfolding decode_protocol encode_protocol letoh htole swap_bytes
decode_protocol-encode_protocol Host.little Target.site = refl
decode_protocol-encode_protocol Host.little Target.all_devices = refl
decode_protocol-encode_protocol Host.little (Target.tags t) = refl
decode_protocol-encode_protocol Host.little (Target.device a) = refl
decode_protocol-encode_protocol Host.big Target.site = refl
decode_protocol-encode_protocol Host.big Target.all_devices = refl
decode_protocol-encode_protocol Host.big (Target.tags t) = refl
decode_protocol-encode_protocol Host.big (Target.device a) = refl

abbrev is_tagged : Target → Bool
is_tagged (Target.device a) = false
is_tagged _ = true

decoded_protocol-is_tagged :
    (host : Host) (target : Target)
    → has_flag (decoded_protocol host target) (protocol_tagged host) ≡ is_tagged target
decoded_protocol-is_tagged Host.little Target.site = refl
decoded_protocol-is_tagged Host.little Target.all_devices = refl
decoded_protocol-is_tagged Host.little (Target.tags t) = refl
decoded_protocol-is_tagged Host.little (Target.device a) = refl
decoded_protocol-is_tagged Host.big Target.site = refl
decoded_protocol-is_tagged Host.big Target.all_devices = refl
decoded_protocol-is_tagged Host.big (Target.tags t) = refl
decoded_protocol-is_tagged Host.big (Target.device a) = refl

-- The tags of a target are a uint64_t.
abbrev pub FitsWord : Target → Type 0
FitsWord (Target.tags t) = t < 2 ^ 64
FitsWord _ = Unit {0}

decode_target :
    (host : Host) (target : Target) (client_id : ℕ) (site_addr : Option (List ℕ))
    (info : PacketInfo)
    → FitsWord target
    → let t = (blank_header host client_id target site_addr info).target in
      (if is_tagged target
        then letoh host 8 (if has_flag (header_flags target) tagged then htole host 8 t else t)
        else (if has_flag (header_flags target) tagged then htole host 8 t else t))
      ≡ t
decode_target host Target.site cid s info f = letoh-htole host 8 0 (omega arith)
decode_target host Target.all_devices cid s info f = letoh-htole host 8 0 (omega arith)
decode_target host (Target.tags t) cid s info f = letoh-htole host 8 t f
decode_target host (Target.device a) cid s info f = refl

pub encode_flags_blank :
    (target : Target) → encode_flags 0 (header_flags target) ≡ flag_res_required
encode_flags_blank Target.site = refl
encode_flags_blank Target.all_devices = refl
encode_flags_blank (Target.tags t) = refl
encode_flags_blank (Target.device a) = refl

-- Decoding a header that was set up gives the blank header back, with every field at the value that
-- the arguments asked for: the protocol has the version, the addressable flag and, unless the packet
-- is for one device, the tagged flag, and a response is required. The client id is a uint32_t and
-- the tags of a target are a uint64_t.
pub decode_header-setup_header :
    (host : Host) (client_id : ℕ) (target : Target) (site_addr : Option (List ℕ))
    (info : PacketInfo)
    → client_id < 2 ^ 32
    → FitsWord target
    → decode_header host (setup_header host client_id target site_addr info)
      ≡ record (blank_header host client_id target site_addr info) {
        protocol = decoded_protocol host target;
        flags = flag_res_required;
      }
unfolding decode_header setup_header
decode_header-setup_header host client_id target site_addr info hc hf = rw (
  decode_protocol-encode_protocol host target,
  decoded_protocol-is_tagged host target,
  encode_flags_blank target,
  decode_target host target client_id site_addr info hf,
  letoh-htole host 2 ((info.size + packet_header_size) % 2 ^ 16) (omega arith),
  letoh-htole host 2 (info.type % 2 ^ 16) (omega arith),
  letoh-htole host 4 client_id hc,
  letoh-htole host 8 0 (omega arith),
)
