-- ===== src/Gateway/Queue/Sync.antt =====
-- The sizes in the ring of messages against the bytes of the write buffer.
use lightsd.Common.{
  ℕ, zero, suc, ◌+◌, ◌%◌, ◌≤◌, ◌<◌, ◌≡◌, ◌≢◌, refl, ap, sym, ◌∙◌, List, [], ◌∷◌, ◌++◌, true, false,
  Option, length, length-append, length-drop, drop, All, All-append, if◌then◌else◌, ◌==◌, arith,
  Bool-cases, inl, inr,
}
use lightsd.Wire.PacketInfo.{PacketInfo, packet_header_size}
use lightsd.Gateway.State.{opened, Gateway, Message}
use lightsd.Gateway.Queue.{
  bytes_taken, enqueue_packet, payload, WriteResult, wrote, after_write, size_after,
}
use lightsd.Gateway.Queue.Fifo.{
  IsRing, pending, waiting, message_of, enqueue_packet-IsRing, enqueued, dropped,
}
use lightsd.Gateway.Queue.Window.{window}
use lightsd.Gateway.Queue.Sent.{
  oldest, left, written, pending_parts, after_write-IsRing, pending-after_write,
}

-- The bytes of the messages that wait.
abbrev pub sizes : List Message → ℕ
sizes [] = 0
sizes (m ∷ ms) = m.size + sizes ms

abbrev pub ArePackets : List Message → Type 0
ArePackets ms = All (λ (m : Message). 0 < m.size) ms

pub record InSync (gw : Gateway) : Type 0 where
  pub ring : IsRing gw
  pub bytes : sizes (pending gw) ≡ length gw.write_buf
  pub packets : ArePackets (pending gw)
  -- The socket's event is added while there is something to write.
  pub busy : length gw.write_buf ≢ 0 → gw.event_added ≡ true
  pub idle : length gw.write_buf ≡ 0 → gw.event_added ≡ false

-- A gateway that was just opened has an empty queue, in step with its empty buffer.
pub opened-InSync : (site : List ℕ) (received_at : ℕ) → InSync (opened site received_at)
unfolding waiting
opened-InSync site received_at = record {
  ring = record { slots = refl; head_in = omega arith; tail_in = omega arith; meets = λ e. cc };
  bytes = refl;
  packets = tt;
  busy = λ ne. absurd (ne refl);
  idle = λ e. refl;
}

sizes-append : (xs ys : List Message) → sizes (xs ++ ys) ≡ sizes xs + sizes ys
sizes-append [] ys = omega arith
sizes-append (x ∷ xs) ys = omega (arith, sizes-append xs ys)

module _ (gw : Gateway) (hdr : List ℕ) (info : PacketInfo) (pkt : Option (List ℕ)) where
  buf-enqueue_packet :
      gw.pkt_ring_full ≡ false
      → length hdr ≡ packet_header_size
      → length (payload info pkt) ≡ info.size
      → length (enqueue_packet gw hdr info pkt).write_buf
        ≡ length gw.write_buf + (packet_header_size + info.size)
  unfolding enqueue_packet
  buf-enqueue_packet f h p = rw f (
      omega (
        arith,
        length-append gw.write_buf (hdr ++ payload info pkt),
        length-append hdr (payload info pkt),
      ))

  armed : gw.pkt_ring_full ≡ false → (enqueue_packet gw hdr info pkt).event_added ≡ true
  unfolding enqueue_packet
  armed f = rw f

  queued :
      gw.pkt_ring_full ≡ false
      → length hdr ≡ packet_header_size
      → length (payload info pkt) ≡ info.size
      → InSync gw
      → InSync (enqueue_packet gw hdr info pkt)
  queued f h p s = record {
    ring = enqueue_packet-IsRing gw hdr info pkt s.ring;
    bytes =
        ap sizes (enqueued gw hdr info pkt s.ring f)
        ∙ omega (
          arith,
          sizes-append (pending gw) (message_of info ∷ []),
          buf-enqueue_packet f h p,
          s.bytes,
        );
    packets =
        rw (enqueued gw hdr info pkt s.ring f)
          (All-append _ (pending gw) (message_of info ∷ []) s.packets (omega arith));
    busy = λ _. armed f;
    idle = λ e. absurd (omega (arith, buf-enqueue_packet f h p));
  }

  -- lgtd_lifx_gateway_enqueue_packet keeps the ring and the write buffer in step, if it is given a
  -- whole header and a payload of the size that the packet's type has.
  pub enqueue_packet-InSync :
      length hdr ≡ packet_header_size
      → length (payload info pkt) ≡ info.size
      → InSync gw
      → InSync (enqueue_packet gw hdr info pkt)
  enqueue_packet-InSync h p s = elim (Bool-cases gw.pkt_ring_full) [
    | inl f ↦ rw (dropped gw hdr info pkt s.ring f) s
    | inr f ↦ queued f h p s
  ]

pub waiting_some : (gw : Gateway) → pending gw ≢ [] → (n : ℕ) × (waiting gw ≡ suc n)
waiting_some gw h = go (waiting gw) refl
  where
    go : (k : ℕ) → waiting gw ≡ k → (n : ℕ) × (waiting gw ≡ suc n)
    go zero e = absurd (h (ap (window gw.pkt_ring gw.pkt_ring_tail) e))
    go (suc n) e = (n, e)

sizes-left :
    (l : ℕ) (m : Message) (ms : List Message)
    → m.size ≡ l
    → sizes (if l == 0 then ms else m ∷ ms) ≡ l + sizes ms
sizes-left l m ms e = ground arith

ArePackets-left :
    (l : ℕ) (m : Message) (ms : List Message)
    → m.size ≡ l
    → ArePackets ms
    → ArePackets (if l == 0 then ms else m ∷ ms)
ArePackets-left l m ms e h = ground arith

event-after_write :
    (gw : Gateway) (result : WriteResult) (now : ℕ)
    → gw.event_added ≡ true
    → ((length (after_write gw result now).write_buf ≢ 0
          → (after_write gw result now).event_added ≡ true)
        × (length (after_write gw result now).write_buf ≡ 0
            → (after_write gw result now).event_added ≡ false))
event-after_write gw result now e = go (drop (bytes_taken result) gw.write_buf)
  where
    go :
        (buf : List ℕ)
        → ((length buf ≢ 0 → elim buf [ [] ↦ false | b ∷ bs ↦ gw.event_added ] ≡ true)
            × (length buf ≡ 0 → elim buf [ [] ↦ false | b ∷ bs ↦ gw.event_added ] ≡ false))
    go [] = (λ h. absurd (h refl), λ h. refl)
    go (b ∷ bs) = (λ h. e, λ h. absurd (omega arith))

module _ (gw : Gateway) (now : ℕ) (s : InSync gw) (n : ℕ) (w : waiting gw ≡ suc n) where
  pub parts : pending gw ≡ oldest gw ∷ window gw.pkt_ring ((gw.pkt_ring_tail + 1) % 16) n
  parts = pending_parts gw s.ring (wrote 0) now n w

  pub sizes-parts :
      (oldest gw).size + sizes (window gw.pkt_ring ((gw.pkt_ring_tail + 1) % 16) n)
      ≡ length gw.write_buf
  sizes-parts = ap sizes (sym parts) ∙ s.bytes

  pub packets-parts :
      (0 < (oldest gw).size) × ArePackets (window gw.pkt_ring ((gw.pkt_ring_tail + 1) % 16) n)
  packets-parts = rw parts at s.packets

  pub sizes-after_write :
      (result : WriteResult)
      → sizes (pending (after_write gw result now))
        ≡ size_after result (oldest gw).size
          + sizes (window gw.pkt_ring ((gw.pkt_ring_tail + 1) % 16) n)
  sizes-after_write result =
      ap sizes (pending-after_write gw s.ring result now n w)
      ∙ sizes-left (left gw s.ring result now n w) (written gw s.ring result now n w) _ refl

  pub sent : (b : ℕ) → b ≤ (oldest gw).size → InSync (after_write gw (wrote b) now)
  sent b le = record {
    ring = after_write-IsRing gw s.ring (wrote b) now n w;
    bytes = omega (arith, sizes-after_write (wrote b), length-drop b gw.write_buf, sizes-parts);
    packets = rw (pending-after_write gw s.ring (wrote b) now n w) (
        ArePackets-left (left gw s.ring (wrote b) now n w) (written gw s.ring (wrote b) now n w) _
          refl packets-parts.1);
    busy =
        (event-after_write gw (wrote b) now (s.busy (omega (arith, sizes-parts, packets-parts)))).0;
    idle =
        (event-after_write gw (wrote b) now (s.busy (omega (arith, sizes-parts, packets-parts)))).1;
  }
