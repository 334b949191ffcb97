-- ===== src/Wire/Header/OnWire.antt =====
-- The bytes of a header that lgtd_lifx_wire_setup_header made.
use mathlib.Core.List.{reverse, reverse-reverse}
use lightsd.Common.{
  ℕ, ◌+◌, ◌%◌, ◌^◌, ◌≡◌, refl, ap, sym, ◌∙◌, List, [], ◌∷◌, ◌++◌, Option, some, arith, length,
  length-append, replicate,
}
use lightsd.Wire.PacketInfo.{PacketInfo, packet_header_size}
use lightsd.Wire.Endian.{Host, htole, le_bytes, of_le_bytes, memory, swap_bytes}
use lightsd.Wire.Endian.Laws.{
  AreBytes, AreBytes-append, AreBytes-reverse, length-reverse, le_bytes-of_le_bytes, memory-htole,
}
use lightsd.Wire.Header.{
  Target, target_of_addr, header_flags, encode_protocol, setup_header, header_bytes,
}
use lightsd.Wire.Header.RoundTrip.{encode_flags_blank}

-- The eight bytes of the target.
abbrev pub target_bytes : Target → List ℕ
target_bytes (Target.tags t) = le_bytes 8 t
target_bytes (Target.device addr) = addr ++ (0 ∷ 0 ∷ [])
target_bytes _ = replicate 8 0

-- The high byte of the protocol: version 4, addressable, and tagged unless for one device.
abbrev pub protocol_byte : Target → ℕ
protocol_byte (Target.device addr) = 0x14
protocol_byte _ = 0x34

abbrev pub IsAddr : Target → Type 0
IsAddr (Target.device addr) = (length addr ≡ 6) × AreBytes addr
IsAddr _ = Unit {0}

padded : (addr : List ℕ) → length addr ≡ 6 → length (addr ++ (0 ∷ 0 ∷ [])) ≡ 8
padded addr h = omega (arith, length-append addr (0 ∷ 0 ∷ []))

le_bytes_of : (bs : List ℕ) → length bs ≡ 8 → AreBytes bs → le_bytes 8 (of_le_bytes bs) ≡ bs
le_bytes_of bs h b = ap (λ (k : ℕ). le_bytes k (of_le_bytes bs)) (sym h) ∙ le_bytes-of_le_bytes bs b

memory_addr :
    (host : Host) (addr : List ℕ)
    → length addr ≡ 6
    → AreBytes addr
    → memory host 8 (target_of_addr host addr) ≡ addr ++ (0 ∷ 0 ∷ [])
unfolding memory
memory_addr Host.little addr h b =
    le_bytes_of (addr ++ (0 ∷ 0 ∷ [])) (padded addr h) (AreBytes-append addr _ b (omega arith))
memory_addr Host.big addr h b =
    ap reverse (
      le_bytes_of (reverse (addr ++ (0 ∷ 0 ∷ [])))
        (length-reverse (addr ++ (0 ∷ 0 ∷ [])) ∙ padded addr h)
        (AreBytes-reverse _ (AreBytes-append addr _ b (omega arith))))
    ∙ reverse-reverse (addr ++ (0 ∷ 0 ∷ []))

memory_target :
    (host : Host) (client_id : ℕ) (target : Target) (site_addr : Option (List ℕ))
    (info : PacketInfo)
    → IsAddr target
    → memory host 8 (setup_header host client_id target site_addr info).target ≡ target_bytes target
unfolding setup_header
memory_target host c Target.site s info a = memory-htole host 8 0
memory_target host c Target.all_devices s info a = memory-htole host 8 0
memory_target host c (Target.tags t) s info a = memory-htole host 8 t
memory_target host c (Target.device addr) s info a = memory_addr host addr a.0 a.1

memory_protocol :
    (host : Host) (target : Target)
    → memory host 2 (encode_protocol host (header_flags target)) ≡ 0 ∷ protocol_byte target ∷ []
unfolding memory encode_protocol htole swap_bytes
memory_protocol Host.little Target.site = refl
memory_protocol Host.little Target.all_devices = refl
memory_protocol Host.little (Target.tags t) = refl
memory_protocol Host.little (Target.device a) = refl
memory_protocol Host.big Target.site = refl
memory_protocol Host.big Target.all_devices = refl
memory_protocol Host.big (Target.tags t) = refl
memory_protocol Host.big (Target.device a) = refl

-- On a host of either byte order a header that was set up is the same 36 bytes: the size, the
-- protocol, the client id, the target, the site, `response required`, a zero sequence number and
-- time, the packet type, each the lowest byte first. A device's address has six bytes.
pub header_bytes-setup_header :
    (host : Host) (client_id : ℕ) (target : Target) (site : List ℕ) (info : PacketInfo)
    → IsAddr target
    → header_bytes host (setup_header host client_id target (some site) info)
      ≡ le_bytes 2 ((info.size + packet_header_size) % 2 ^ 16)
        ++ (0
            ∷ protocol_byte target
            ∷ (le_bytes 4 client_id
                ++ (target_bytes target
                    ++ (site
                        ++ (1
                            ∷ 0
                            ∷ (le_bytes 8 0
                                ++ (le_bytes 2 (info.type % 2 ^ 16) ++ (0 ∷ 0 ∷ []))))))))
unfolding header_bytes
header_bytes-setup_header host c target site info a =
    rw (memory_target host c target (some site) info a) (
      unfold setup_header in
      rw (
        memory_protocol host target,
        encode_flags_blank target,
        memory-htole host 2 ((info.size + packet_header_size) % 2 ^ 16),
        memory-htole host 2 (info.type % 2 ^ 16),
        memory-htole host 4 c,
        memory-htole host 8 0,
      ))
