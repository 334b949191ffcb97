-- ===== src/Gateway/Queue.antt =====
-- lifx/gateway.c: the packets that wait for the socket of a gateway. The payloads are bytes in the
-- write buffer; a ring of messages holds where one packet ends and the next begins.
pub mod Window
pub mod Fifo
pub mod Sent
pub mod Sync
pub mod Writes
pub mod Drained
use lightsd.Common.{
  ℕ, ◌+◌, ◌-◌, ◌%◌, List, [], ◌∷◌, ◌++◌, Bool, true, false, Option, none, some, ◌==◌, if◌then◌else◌,
  get_or, set, take, drop, ◌&&◌,
}
use lightsd.Wire.PacketType
use lightsd.Wire.PacketInfo.{PacketInfo, packet_header_size}
use lightsd.Gateway.State.{Gateway, Message, no_message, packet_ring_size}

-- LGTD_LIFX_GATEWAY_INC_MESSAGE_RING_INDEX
abbrev pub inc_message_ring_index : ℕ → ℕ
inc_message_ring_index idx = (idx + 1) % packet_ring_size

-- `pkt`, if it is not NULL, points to at least `info.size` bytes.
abbrev pub payload : PacketInfo → Option (List ℕ) → List ℕ
payload info none = []
payload info (some pkt) = take info.size pkt

unfoldable pub enqueue_packet : Gateway → List ℕ → PacketInfo → Option (List ℕ) → Gateway
enqueue_packet gw hdr info pkt =
    if gw.pkt_ring_full
    then gw
    else (let head : ℕ = inc_message_ring_index gw.pkt_ring_head in
        record gw {
          write_buf = gw.write_buf ++ (hdr ++ payload info pkt);
          pkt_ring =
              set gw.pkt_ring gw.pkt_ring_head
                (record { type = info.type; size = packet_header_size + info.size });
          pkt_ring_head = head;
          pkt_ring_full = if head == gw.pkt_ring_tail then true else gw.pkt_ring_full;
          event_added = true;
        })

-- What evbuffer_write_atmost reports: a number of bytes, or -1 with EAGAIN or another error.
pub data WriteResult : Type 0 where
  wrote : ℕ → WriteResult
  again failed : WriteResult

-- `size -= nbytes`, where nbytes is -1 after EAGAIN.
abbrev pub size_after : WriteResult → ℕ → ℕ
size_after (wrote n) size = size - n
size_after _ size = size + 1

abbrev pub bytes_taken : WriteResult → ℕ
bytes_taken (wrote n) = n
bytes_taken _ = 0

-- The state once `nbytes` were written: the timestamps, the message at the tail, the event.
abbrev pub after_write : Gateway → WriteResult → ℕ → Gateway
after_write gw result now =
    let tail : ℕ = gw.pkt_ring_tail in
    let message : Message = get_or gw.pkt_ring tail no_message in
    let size : ℕ = size_after result message.size in
    let buf : List ℕ = drop (bytes_taken result) gw.write_buf in
    let sent : Bool = size == 0 in
    record gw {
      last_req_at = gw.next_req_at;
      next_req_at = now;
      write_buf = buf;
      pkt_ring =
          set gw.pkt_ring tail (record { type = if sent then 0 else message.type; size = size });
      pending_refresh_req =
          if sent && (message.type == PacketType.get_tag_labels)
          then false
          else gw.pending_refresh_req;
      pkt_ring_tail = if sent then inc_message_ring_index tail else tail;
      pkt_ring_full = if sent then false else gw.pkt_ring_full;
      event_added = elim buf [ [] ↦ false | b ∷ bs ↦ gw.event_added ];
    }

-- The EV_WRITE branch of lgtd_lifx_gateway_socket_event_callback; `none` where the gateway is dropped
-- and the discovery restarted.
unfoldable pub write_ready : Gateway → WriteResult → ℕ → Option Gateway
write_ready gw failed now = none
write_ready gw (wrote n) now = some (after_write gw (wrote n) now)
write_ready gw again now = some (after_write gw again now)
