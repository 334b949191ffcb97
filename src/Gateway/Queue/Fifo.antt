-- ===== src/Gateway/Queue/Fifo.antt =====
-- The ring of messages as the queue of the packets that wait.
use lightsd.Common.{
  ℕ, suc, ◌+◌, ◌-◌, ◌%◌, ◌<◌, ◌≡◌, ap, ◌∙◌, List, [], ◌∷◌, ◌++◌, true, false, Option, length, set,
  length-set, if◌then◌else◌, ◌==◌, arith, Bool-cases, inl, inr,
}
use lightsd.Wire.PacketInfo.{PacketInfo, packet_header_size}
use lightsd.Gateway.State.{Gateway, Message}
use lightsd.Gateway.Queue.{enqueue_packet}
use lightsd.Gateway.Queue.Window.{window, window_cong, length-window, window-set_last}

-- How many messages wait.
unfoldable pub waiting : Gateway → ℕ
waiting gw = if gw.pkt_ring_full then 16 else (gw.pkt_ring_head + 16 - gw.pkt_ring_tail) % 16

-- They, the oldest first.
abbrev pub pending : Gateway → List Message
pending gw = window gw.pkt_ring gw.pkt_ring_tail (waiting gw)

pub record IsRing (gw : Gateway) : Type 0 where
  pub slots : length gw.pkt_ring ≡ 16
  pub head_in : gw.pkt_ring_head < 16
  pub tail_in : gw.pkt_ring_tail < 16
  pub meets : gw.pkt_ring_full ≡ true → gw.pkt_ring_head ≡ gw.pkt_ring_tail

abbrev pub message_of : PacketInfo → Message
message_of info = record { type = info.type; size = packet_header_size + info.size }

pub length-pending : (gw : Gateway) → length (pending gw) ≡ waiting gw
length-pending gw = length-window gw.pkt_ring gw.pkt_ring_tail (waiting gw)

module _ (gw : Gateway) (hdr : List ℕ) (info : PacketInfo) (pkt : Option (List ℕ))
    (v : IsRing gw) where
  -- A packet keeps the ring well formed.
  pub enqueue_packet-IsRing : IsRing (enqueue_packet gw hdr info pkt)
  unfolding enqueue_packet
  enqueue_packet-IsRing = ground (arith, length-set gw.pkt_ring gw.pkt_ring_head (message_of info))

  ring-enqueue_packet :
      gw.pkt_ring_full ≡ false
      → (enqueue_packet gw hdr info pkt).pkt_ring
        ≡ set gw.pkt_ring gw.pkt_ring_head (message_of info)
  unfolding enqueue_packet
  ring-enqueue_packet f = rw f

  tail-enqueue_packet : (enqueue_packet gw hdr info pkt).pkt_ring_tail ≡ gw.pkt_ring_tail
  unfolding enqueue_packet
  tail-enqueue_packet = ground arith

  pub waiting-enqueue_packet :
      gw.pkt_ring_full ≡ false → waiting (enqueue_packet gw hdr info pkt) ≡ suc (waiting gw)
  unfolding enqueue_packet waiting
  waiting-enqueue_packet f = ground (arith, v.head_in, v.tail_in)

  room : gw.pkt_ring_full ≡ false → waiting gw < 16
  unfolding waiting
  room f = rw f (omega arith)

  head-waiting : gw.pkt_ring_full ≡ false → gw.pkt_ring_head ≡ (gw.pkt_ring_tail + waiting gw) % 16
  unfolding waiting
  head-waiting f = rw f (omega (arith, v.head_in, v.tail_in))

  pub enqueued :
      gw.pkt_ring_full ≡ false
      → pending (enqueue_packet gw hdr info pkt) ≡ pending gw ++ (message_of info ∷ [])
  enqueued f =
      window_cong
        (ring-enqueue_packet f
          ∙ ap (λ (h : ℕ). set gw.pkt_ring h (message_of info)) (head-waiting f))
        tail-enqueue_packet (waiting-enqueue_packet f)
      ∙ window-set_last gw.pkt_ring (message_of info) gw.pkt_ring_tail (waiting gw) v.slots
          v.tail_in (room f)

  waiting_full : gw.pkt_ring_full ≡ true → waiting gw ≡ 16
  unfolding waiting
  waiting_full f = rw f

  pub dropped : gw.pkt_ring_full ≡ true → enqueue_packet gw hdr info pkt ≡ gw
  unfolding enqueue_packet
  dropped f = rw f

  -- If the ring is well formed, lgtd_lifx_gateway_enqueue_packet puts a packet behind those that wait,
  -- or drops it and leaves the queue as it is when sixteen wait.
  pub pending-enqueue_packet :
      pending (enqueue_packet gw hdr info pkt)
      ≡ (if length (pending gw) == 16 then pending gw else pending gw ++ (message_of info ∷ []))
  pending-enqueue_packet = elim (Bool-cases gw.pkt_ring_full) [
    | inl f ↦
        let e : (length (pending gw) == 16) ≡ true =
          ground (arith, length-pending gw, waiting_full f) in
        ap pending (dropped f) ∙ rw e
    | inr f ↦
        let e : (length (pending gw) == 16) ≡ false = ground (arith, length-pending gw, room f) in
        enqueued f ∙ rw e
  ]
