-- ===== src/Wire/Receive.antt =====
-- lifx/wire_proto.c: lgtd_lifx_wire_handle_receive, over what recvfrom gives in turn. A payload is
-- handed over as it came; the packet info names the function that decodes it. The warning about the
-- version of the protocol changes nothing.
pub mod Deliveries
pub mod Reading
pub mod Sent
use mathlib.Core.List.{reverse}
use lightsd.Common.{
  ℕ, List, [], ◌∷◌, Bool, true, false, not, Option, none, some, ltb, ◌==◌, if◌then◌else◌, length,
  take, drop, get_or,
}
use lightsd.Wire.PacketType
use lightsd.Wire.PacketInfo.{PacketInfo, packet_header_size}
use lightsd.Wire.PacketTable.{PacketInfoMap, get_packet_info}
use lightsd.Wire.Endian.{Host, of_le_bytes}
use lightsd.Wire.Header.{Header, decode_header, has_flag, protocol_addressable}

-- A number in the host's memory.
unfoldable pub from_memory : Host → List ℕ → ℕ
from_memory Host.little bs = of_le_bytes bs
from_memory Host.big bs = of_le_bytes (reverse bs)

-- The packed struct at the start of a buffer.
unfoldable pub read_header : Host → List ℕ → Header
read_header host buf = record {
  size = from_memory host (take 2 buf);
  protocol = from_memory host (take 2 (drop 2 buf));
  source = from_memory host (take 4 (drop 4 buf));
  target = from_memory host (take 8 (drop 8 buf));
  site = take 6 (drop 16 buf);
  flags = get_or buf 22 0;
  seqn = get_or buf 23 0;
  at_time = from_memory host (take 8 (drop 24 buf));
  packet_type = from_memory host (take 2 (drop 32 buf));
  reserved = take 2 (drop 34 buf);
}

-- The results of recvfrom: EINTR, EAGAIN, another error, or a datagram.
pub data Received : Type 0 where
  interrupted would_block error : Received
  datagram : List ℕ → Received

-- The arguments of lgtd_lifx_gateway_handle_packet.
pub record Delivery : Type 0 where
  pub info : PacketInfo
  pub hdr : Header
  pub pkt : List ℕ

-- What a round of the loop does with a datagram: `return false`, `continue`, or the handler.
pub data Round : Type 0 where
  reject skip : Round
  deliver : Delivery → Round

-- The value returned, or that the loop waits for more.
pub data Verdict : Type 0 where
  returned : Bool → Verdict
  looping : Verdict

abbrev pub with_delivery : Delivery → Verdict × List Delivery → Verdict × List Delivery
with_delivery d (v, ds) = (v, d ∷ ds)

module _ (host : Host) (M : PacketInfoMap) where
  -- The tests of a packet whose header is decoded and whose size is right.
  abbrev pub on_packet : Header → List ℕ → Round
  on_packet hdr pkt =
      if hdr.packet_type == PacketType.get_pan_gateway
      then Round.skip
      else (elim (get_packet_info M hdr.packet_type) [
        | none ↦ Round.skip
        | some info ↦
            if has_flag hdr.protocol (protocol_addressable host)
            then Round.deliver (record { info = info; hdr = hdr; pkt = pkt })
            else Round.skip
      ])

  unfoldable pub on_datagram : List ℕ → Round
  on_datagram buf =
      let hdr : Header = decode_header host (read_header host buf) in
      if ltb (length buf) packet_header_size
      then Round.reject
      else (if hdr.size == length buf
          then on_packet hdr (drop packet_header_size buf)
          else Round.reject)

  unfoldable pub handle_receive : List Received → Verdict × List Delivery
  handle_receive [] = (Verdict.looping, [])
  handle_receive (Received.interrupted ∷ rs) = handle_receive rs
  handle_receive (Received.would_block ∷ rs) = (Verdict.returned true, [])
  handle_receive (Received.error ∷ rs) = (Verdict.returned false, [])
  handle_receive (Received.datagram buf ∷ rs) =
      let rest : Verdict × List Delivery = handle_receive rs in
      elim (on_datagram buf) [
        | Round.reject ↦ (Verdict.returned false, [])
        | Round.skip ↦ rest
        | Round.deliver d ↦ with_delivery d rest
      ]
