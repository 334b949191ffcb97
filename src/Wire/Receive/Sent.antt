-- ===== src/Wire/Receive/Sent.antt =====
-- lgtd_lifx_wire_handle_receive on what lgtd_lifx_wire_setup_header made.
use mathlib.Core.List.{reverse}
use native.Mathlib.Nat.{pow-suc}
use lightsd.Common.{
  ℕ, ◌+◌, ◌%◌, ◌<◌, ◌^◌, ◌≡◌, ◌≢◌, refl, ap, ◌∙◌, List, [], ◌∷◌, ◌++◌, true, false, some, length,
  length-append, drop, ltb, ◌==◌, if◌then◌else◌, arith,
}
use lightsd.Wire.PacketType
use lightsd.Wire.PacketInfo.{PacketInfo, packet_header_size}
use lightsd.Wire.PacketTable.{PacketInfoMap, get_packet_info}
use lightsd.Wire.Endian.{Host, of_le_bytes, le_bytes, swap_bytes, htole}
use lightsd.Wire.Endian.Laws.{
  AreBytes, AreBytes-append, AreBytes-reverse, le_bytes-AreBytes, length-le_bytes, length-reverse,
}
use lightsd.Wire.Header.{
  Header, Target, target_of_addr, blank_header, header_flags, encode_protocol, setup_header,
  header_bytes, decode_header, flag_res_required, has_flag, protocol_addressable,
}
use lightsd.Wire.Header.RoundTrip.{decoded_protocol, FitsWord, decode_header-setup_header}
use lightsd.Wire.Header.OnWire.{IsAddr}
use lightsd.Wire.Receive.{read_header, Round, on_packet, on_datagram}
use lightsd.Wire.Receive.Reading.{
  FitsFields, read_header-header_bytes, header_bytes-append, at_payload, length-header_bytes,
}

of_le_bytes_lt : (bs : List ℕ) → AreBytes bs → of_le_bytes bs < 256 ^ length bs
of_le_bytes_lt [] h = omega arith
of_le_bytes_lt (b ∷ bs) h = omega (arith, pow-suc 256 (length bs), of_le_bytes_lt bs h.1, h.0)

of_le_bytes_fits : (k : ℕ) (bs : List ℕ) → length bs ≡ k → AreBytes bs → of_le_bytes bs < 256 ^ k
of_le_bytes_fits k bs e h = rw (← e) (of_le_bytes_lt bs h)

htole_lt : (host : Host) (k n : ℕ) → n < 256 ^ k → htole host k n < 256 ^ k
unfolding htole swap_bytes
htole_lt Host.little k n h = h
htole_lt Host.big k n h =
    of_le_bytes_fits k (reverse (le_bytes k n))
      (length-reverse (le_bytes k n) ∙ length-le_bytes k n)
      (AreBytes-reverse _ (le_bytes-AreBytes k n))

target_of_addr_lt :
    (host : Host) (addr : List ℕ)
    → length addr ≡ 6
    → AreBytes addr
    → target_of_addr host addr < 256 ^ 8
target_of_addr_lt Host.little addr e h =
    of_le_bytes_fits 8 (addr ++ (0 ∷ 0 ∷ [])) (omega (arith, e, length-append addr (0 ∷ 0 ∷ [])))
      (AreBytes-append addr _ h (omega arith, (omega arith, tt)))
target_of_addr_lt Host.big addr e h =
    of_le_bytes_fits 8 (reverse (addr ++ (0 ∷ 0 ∷ [])))
      (omega (arith, e, length-reverse (addr ++ (0 ∷ 0 ∷ [])), length-append addr (0 ∷ 0 ∷ [])))
      (AreBytes-reverse _ (AreBytes-append addr _ h (omega arith, (omega arith, tt))))

encode_protocol_lt :
    (host : Host) (target : Target) → encode_protocol host (header_flags target) < 256 ^ 2
unfolding encode_protocol htole swap_bytes
encode_protocol_lt Host.little Target.site = omega arith
encode_protocol_lt Host.little Target.all_devices = omega arith
encode_protocol_lt Host.little (Target.tags t) = omega arith
encode_protocol_lt Host.little (Target.device a) = omega arith
encode_protocol_lt Host.big Target.site = omega arith
encode_protocol_lt Host.big Target.all_devices = omega arith
encode_protocol_lt Host.big (Target.tags t) = omega arith
encode_protocol_lt Host.big (Target.device a) = omega arith

module _ (host : Host) (client_id : ℕ) (site : List ℕ) (info : PacketInfo) where
  target_lt :
      (target : Target)
      → FitsWord target
      → IsAddr target
      → (setup_header host client_id target (some site) info).target < 256 ^ 8
  unfolding setup_header
  target_lt Target.site f a = htole_lt host 8 0 (omega arith)
  target_lt Target.all_devices f a = htole_lt host 8 0 (omega arith)
  target_lt (Target.tags t) f a = htole_lt host 8 t f
  target_lt (Target.device addr) f a = target_of_addr_lt host addr a.0 a.1

  setup_header-FitsFields :
      (target : Target)
      → client_id < 2 ^ 32
      → FitsWord target
      → IsAddr target
      → length site ≡ 6
      → FitsFields (setup_header host client_id target (some site) info)
  unfolding setup_header
  setup_header-FitsFields target c f a e = record {
    size = htole_lt host 2 _ (omega arith);
    protocol = encode_protocol_lt host target;
    source = htole_lt host 4 client_id c;
    target = target_lt target f a;
    site = e;
    at_time = htole_lt host 8 0 (omega arith);
    packet_type = htole_lt host 2 _ (omega arith);
    reserved = refl;
  }

on_datagram_of :
    (host : Host) (M : PacketInfoMap) (buf pkt : List ℕ) (hdr : Header) (r : Round)
    → decode_header host (read_header host buf) ≡ hdr
    → ltb (length buf) packet_header_size ≡ false
    → (hdr.size == length buf) ≡ true
    → drop packet_header_size buf ≡ pkt
    → on_packet host M hdr pkt ≡ r
    → on_datagram host M buf ≡ r
unfolding on_datagram
on_datagram_of host M buf pkt hdr r d l s p e =
    let round : Header → Round = λ (h : Header).
      if ltb (length buf) packet_header_size
      then Round.reject
      else (if h.size == length buf
          then on_packet host M h (drop packet_header_size buf)
          else Round.reject) in
    let accepted : round hdr ≡ r = rw (l, s) (ap (on_packet host M hdr) p ∙ e) in
    ap round d ∙ accepted

on_packet_of :
    (host : Host) (M : PacketInfoMap) (hdr : Header) (pkt : List ℕ) (info : PacketInfo)
    → (hdr.packet_type == PacketType.get_pan_gateway) ≡ false
    → get_packet_info M hdr.packet_type ≡ some info
    → has_flag hdr.protocol (protocol_addressable host) ≡ true
    → on_packet host M hdr pkt ≡ Round.deliver (record { info = info; hdr = hdr; pkt = pkt })
on_packet_of host M hdr pkt info e f g = rw (e, f, g) refl

-- The header as it is read: the blank one, with the protocol and the flag that were asked for.
abbrev pub received : Host → ℕ → Target → List ℕ → PacketInfo → Header
received host client_id target site info =
    record (blank_header host client_id target (some site) info) {
      protocol = decoded_protocol host target;
      flags = flag_res_required;
    }

decoded_addressable :
    (host : Host) (target : Target)
    → has_flag (decoded_protocol host target) (protocol_addressable host) ≡ true
decoded_addressable Host.little Target.site = refl
decoded_addressable Host.little Target.all_devices = refl
decoded_addressable Host.little (Target.tags t) = refl
decoded_addressable Host.little (Target.device a) = refl
decoded_addressable Host.big Target.site = refl
decoded_addressable Host.big Target.all_devices = refl
decoded_addressable Host.big (Target.tags t) = refl
decoded_addressable Host.big (Target.device a) = refl

-- A datagram of a header that lgtd_lifx_wire_setup_header made and a payload of the type's size is
-- delivered with the packet info of its type, the header that was asked for and the payload, if the
-- type is in the table and is not GET_PAN_GATEWAY, and the packet is shorter than 65536 bytes. The
-- addresses have six bytes, and the type, the client id and the tags fit their fields.
pub on_datagram-setup_header :
    (host : Host) (M : PacketInfoMap) (client_id : ℕ) (target : Target) (site : List ℕ)
    (info : PacketInfo) (pkt : List ℕ)
    → client_id < 2 ^ 32
    → FitsWord target
    → IsAddr target
    → length site ≡ 6
    → length pkt ≡ info.size
    → info.size + packet_header_size < 2 ^ 16
    → info.type < 2 ^ 16
    → info.type ≢ PacketType.get_pan_gateway
    → get_packet_info M info.type ≡ some info
    → on_datagram host M
        (header_bytes host (setup_header host client_id target (some site) info) ++ pkt)
      ≡ Round.deliver
          (record { info = info; hdr = received host client_id target site info; pkt = pkt })
on_datagram-setup_header host M c target site info pkt hc f a e p w t ne k =
    let sent : Header = setup_header host c target (some site) info in
    let fits : FitsFields sent = setup_header-FitsFields host c site info target hc f a e in
    let len : length (header_bytes host sent ++ pkt) ≡ 36 + info.size = omega (
      arith,
      p,
      length-append (header_bytes host sent) pkt,
      length-header_bytes host sent pkt fits,
    ) in
    let small : (info.size + packet_header_size) % 2 ^ 16 ≡ 36 + info.size = omega arith in
    let type : info.type % 2 ^ 16 ≡ info.type = omega arith in
    on_datagram_of host M (header_bytes host sent ++ pkt) pkt (received host c target site info) _
      (ap (decode_header host) (read_header-header_bytes host sent pkt fits)
        ∙ decode_header-setup_header host c target (some site) info hc f)
      (rw len (ground arith)) (rw (len, small) (ground arith))
      (ap (drop 36) (header_bytes-append host sent pkt fits) ∙ at_payload host sent pkt fits)
      (on_packet_of host M (received host c target site info) pkt info
        (rw type (ground (arith, ne))) (rw type k) (decoded_addressable host target))
