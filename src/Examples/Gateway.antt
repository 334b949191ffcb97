-- ===== src/Examples/Gateway.antt =====
-- The theorems about gateways, on a gateway that was just opened and what follows.
pub mod Tags
use lightsd.Common.{
  ℕ, ◌+◌, ◌-◌, ◌<◌, ◌≤◌, ◌≡◌, ◌≢◌, refl, ◌∙◌, List, [], ◌∷◌, ◌++◌, Bool, true, false, Option, none,
  some, arith, length, drop, replicate, ◌==◌, if◌then◌else◌, min, ◌*◌, ◌^◌,
}
use lightsd.Wire.PacketType
use lightsd.Wire.PacketInfo.{PacketInfo, Decoder, Encoder, Handler, entry, packet_header_size}
use lightsd.Wire.PacketTable.{packet_table, get_packet_info}
use lightsd.Wire.PacketTable.Find.{row_of, row_list, get_packet_info-row_of}
use lightsd.Wire.Endian.{Host}
use lightsd.Gateway.State.{Gateway, Message, opened}
use lightsd.Gateway.Queue.Drained.{Writes, Drained, Writes-Drained}
use lightsd.Gateway.Queue.Sent.{oldest}
use lightsd.Gateway.Queue.{enqueue_packet, wrote, again, write_ready, after_write}
use lightsd.Gateway.Queue.Fifo.{waiting, pending, message_of, pending-enqueue_packet}
use lightsd.Gateway.Queue.Sync.{InSync, sizes, opened-InSync, enqueue_packet-InSync}
use lightsd.Gateway.Queue.Writes.{write_ready-wrote, write_ready-again}
use lightsd.Gateway.Send.{send_to_site, tags_packet}
use lightsd.Gateway.Send.Queued.{send_to_site-pending}
use lightsd.Discovery.{
  timeout_events, quiet, active_discovery_interval_msecs, passive_discovery_interval_msecs,
  timeout_events-backoff,
}

abbrev pub new_gateway : Gateway
new_gateway = opened (0xd0 ∷ 0x73 ∷ 0xd5 ∷ 1 ∷ 2 ∷ 3 ∷ []) 5

abbrev tags_row : PacketInfo
tags_row = entry "SET_TAGS" PacketType.set_tags 8 Decoder.none Encoder.tags Handler.null

abbrev header : List ℕ
header = replicate 36 1

abbrev body : List ℕ
body = replicate 8 2

abbrev one_packet : Gateway
one_packet = enqueue_packet new_gateway header tags_row (some body)

pending-enqueue_packet_example : pending one_packet ≡ (
    if length (pending new_gateway) == 16
    then pending new_gateway
    else pending new_gateway ++ (message_of tags_row ∷ []))
pending-enqueue_packet_example =
    pending-enqueue_packet new_gateway header tags_row (some body)
      (opened-InSync (0xd0 ∷ 0x73 ∷ 0xd5 ∷ 1 ∷ 2 ∷ 3 ∷ []) 5).ring

enqueue_packet-InSync_example : InSync one_packet
enqueue_packet-InSync_example =
    enqueue_packet-InSync new_gateway header tags_row (some body) refl refl
      (opened-InSync (0xd0 ∷ 0x73 ∷ 0xd5 ∷ 1 ∷ 2 ∷ 3 ∷ []) 5)

one_packet-InSync : InSync one_packet
one_packet-InSync =
    enqueue_packet-InSync new_gateway header tags_row (some body) refl refl
      (opened-InSync (0xd0 ∷ 0x73 ∷ 0xd5 ∷ 1 ∷ 2 ∷ 3 ∷ []) 5)

one_packet-pending : pending one_packet ≡ record { type = PacketType.set_tags; size = 44 } ∷ []
unfolding enqueue_packet waiting
one_packet-pending = refl

one_packet-waits : pending one_packet ≢ []
unfolding enqueue_packet waiting
one_packet-waits e = cc

write_ready-wrote_example :
    (44 ≤ length one_packet.write_buf)
    × ((gw' : Gateway) × (write_ready one_packet (wrote 10) 9 ≡ some gw')
        × InSync gw'
        × (pending gw'
            ≡ (if 10 == 44 then [] else record { type = PacketType.set_tags; size = 44 - 10 } ∷ []))
        × (gw'.write_buf ≡ drop 10 one_packet.write_buf)
        × (gw'.last_req_at ≡ one_packet.next_req_at)
        × (gw'.next_req_at ≡ 9))
write_ready-wrote_example =
    write_ready-wrote one_packet 9 10 (record { type = PacketType.set_tags; size = 44 }) []
      one_packet-InSync one_packet-pending (omega arith)

-- The packet is written in two parts.
abbrev half_written : Gateway
half_written = after_write one_packet (wrote 10) 9

abbrev all_written : Gateway
all_written = after_write half_written (wrote 34) 12

second_after_first : Writes one_packet 2 all_written
unfolding enqueue_packet write_ready
second_after_first =
    Writes.write 1 half_written all_written 34 12
      (Writes.write 0 one_packet half_written 10 9 Writes.start refl (omega arith) (omega arith)
        refl)
      refl (omega arith) (omega arith) refl

Writes-Drained_example :
    (2 + length all_written.write_buf ≤ length one_packet.write_buf)
    × (all_written.event_added ≡ false → Drained all_written)
    × (all_written.event_added ≡ true → 0 < (oldest all_written).size)
    × (2 ≡ length one_packet.write_buf → Drained all_written)
Writes-Drained_example =
    Writes-Drained one_packet all_written 2 one_packet-InSync second_after_first

write_ready-again_example :
    (gw' : Gateway) × (write_ready one_packet again 9 ≡ some gw')
    × (gw'.write_buf ≡ one_packet.write_buf)
    × (sizes (pending gw') ≡ length gw'.write_buf + 1)
    × (¬ InSync gw')
write_ready-again_example = write_ready-again one_packet 9 one_packet-InSync one_packet-waits

one_packet-site : length one_packet.site ≡ 6
unfolding enqueue_packet
one_packet-site = refl

get_tags_row : get_packet_info row_list PacketType.set_tags ≡ some tags_row
unfolding packet_table
get_tags_row = get_packet_info-row_of row_list PacketType.set_tags ∙ found
  where
    found : row_of PacketType.set_tags packet_table ≡ some tags_row
    found = refl

send_to_site-pending_example :
    InSync (send_to_site Host.little 7 row_list one_packet PacketType.set_tags (some body))
    × (pending (send_to_site Host.little 7 row_list one_packet PacketType.set_tags (some body)) ≡ (
        if length (pending one_packet) == 16
        then pending one_packet
        else pending one_packet ++ (message_of tags_row ∷ [])))
send_to_site-pending_example =
    send_to_site-pending Host.little 7 row_list one_packet PacketType.set_tags (some body) tags_row
      one_packet-InSync one_packet-site get_tags_row refl

timeout_events-backoff_example :
    timeout_events (false ∷ true ∷ false ∷ false ∷ []) 10000
    ≡ min (active_discovery_interval_msecs * 2 ^ 2) passive_discovery_interval_msecs
timeout_events-backoff_example = timeout_events-backoff (false ∷ []) 2 10000
