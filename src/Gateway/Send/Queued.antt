-- ===== src/Gateway/Send/Queued.antt =====
-- lgtd_lifx_gateway_send_to_site and the queue of the gateway.
use lightsd.Common.{
  ℕ, ◌%◌, ◌≡◌, List, [], ◌∷◌, ◌++◌, Option, some, arith, length, length-append, ◌^◌, ◌==◌,
  if◌then◌else◌,
}
use lightsd.Wire.PacketInfo.{PacketInfo, packet_header_size}
use lightsd.Wire.PacketTable.{PacketInfoMap, get_packet_info}
use lightsd.Wire.Endian.{Host, le_bytes}
use lightsd.Wire.Header.{Target, header_bytes, setup_header}
use lightsd.Wire.Header.OnWire.{header_bytes-setup_header}
use lightsd.Gateway.State.{Gateway}
use lightsd.Gateway.Queue.{payload}
use lightsd.Gateway.Queue.Fifo.{pending, message_of, pending-enqueue_packet}
use lightsd.Gateway.Queue.Sync.{InSync, enqueue_packet-InSync}
use lightsd.Gateway.Send.{send_to_site}

-- The header of a packet to a site whose address has six bytes has 36 bytes.
length-header :
    (host : Host) (c : ℕ) (site : List ℕ) (info : PacketInfo)
    → length site ≡ 6
    → length (header_bytes host (setup_header host c Target.site (some site) info))
      ≡ packet_header_size
length-header host c site info h = rw (header_bytes-setup_header host c Target.site site info tt) (
    omega (
      arith,
      h,
      length-append site
          (1 ∷ 0 ∷ (le_bytes 8 0 ++ (le_bytes 2 (info.type % 2 ^ 16) ++ (0 ∷ 0 ∷ [])))),
    ))

-- If the queue and the write buffer of a gateway are in step, its address has six bytes, the type is
-- in the table and the payload has the type's size, then after a packet is sent to the site they
-- are in step, and the packet waits behind the others, or is dropped when sixteen wait.
pub send_to_site-pending :
    (host : Host) (client_id : ℕ) (M : PacketInfoMap) (gw : Gateway) (type : ℕ)
    (pkt : Option (List ℕ)) (info : PacketInfo)
    → InSync gw
    → length gw.site ≡ 6
    → get_packet_info M type ≡ some info
    → length (payload info pkt) ≡ info.size
    → InSync (send_to_site host client_id M gw type pkt)
      × (pending (send_to_site host client_id M gw type pkt) ≡ (
          if length (pending gw) == 16 then pending gw else pending gw ++ (message_of info ∷ [])))
unfolding send_to_site
send_to_site-pending host c M gw type pkt info s a e p =
    let hdr : List ℕ = header_bytes host (setup_header host c Target.site (some gw.site) info) in
    rw (e, send_to_site)
      (
        enqueue_packet-InSync gw hdr info pkt (length-header host c gw.site info a) p s,
        pending-enqueue_packet gw hdr info pkt s.ring,
      )
