-- ===== src/Gateway/Queue/Writes.antt =====
-- The EV_WRITE branch of the socket's callback: a write that takes bytes, and one that fails.
use lightsd.Common.{
  ℕ, ◌+◌, ◌-◌, ◌%◌, ◌≤◌, ◌<◌, ◌≡◌, ◌≢◌, refl, ap₂, sym, ◌∙◌, List, [], ◌∷◌, some, length, drop,
  if◌then◌else◌, ◌==◌, arith,
}
use lightsd.Gateway.State.{Gateway, Message}
use lightsd.Gateway.Queue.{wrote, again, after_write, write_ready}
use lightsd.Gateway.Queue.Window.{window}
use lightsd.Gateway.Queue.Fifo.{pending}
use lightsd.Gateway.Queue.Sent.{oldest, pending-after_write}
use lightsd.Gateway.Queue.Sync.{
  InSync, sizes, waiting_some, parts, sizes-parts, packets-parts, sizes-after_write, sent,
}

head_of : {a b : Message} {xs ys : List Message} → a ∷ xs ≡ b ∷ ys → a ≡ b
head_of e = cc

tail_of : {a b : Message} {xs ys : List Message} → a ∷ xs ≡ b ∷ ys → xs ≡ ys
tail_of e = cc

not_empty : {m : Message} {ms xs : List Message} → xs ≡ m ∷ ms → xs ≢ []
not_empty e f = cc

left_of :
    (b : ℕ) (m : Message) (ms : List Message)
    → b ≤ m.size
    → 0 < m.size
    → (if m.size - b == 0
        then ms
        else record { type = if m.size - b == 0 then 0 else m.type; size = m.size - b } ∷ ms)
      ≡ (if b == m.size then ms else record { type = m.type; size = m.size - b } ∷ ms)
left_of b m ms le p = ground arith

-- While packets wait and the ring and the buffer are in step, the socket's callback asks for at most what the write buffer holds of the
-- oldest one. If a write takes `b` bytes of it, the timestamps move on, these bytes leave the buffer,
-- the packet leaves the queue once it is written whole and else waits with what is left, the others
-- stay, and the ring and the buffer are still in step.
pub write_ready-wrote :
    (gw : Gateway) (now b : ℕ) (m : Message) (ms : List Message)
    → InSync gw
    → pending gw ≡ m ∷ ms
    → b ≤ m.size
    → (m.size ≤ length gw.write_buf)
      × ((gw' : Gateway) × (write_ready gw (wrote b) now ≡ some gw')
          × InSync gw'
          × (pending gw'
              ≡ (if b == m.size then ms else record { type = m.type; size = m.size - b } ∷ ms))
          × (gw'.write_buf ≡ drop b gw.write_buf)
          × (gw'.last_req_at ≡ gw.next_req_at)
          × (gw'.next_req_at ≡ now))
unfolding write_ready
write_ready-wrote gw now b m ms s e le =
    let (n, w) = waiting_some gw (not_empty e) in
    let p = parts gw now s n w in
    let hd : oldest gw ≡ m = head_of (sym p ∙ e) in
    let tl : window gw.pkt_ring ((gw.pkt_ring_tail + 1) % 16) n ≡ ms = tail_of (sym p ∙ e) in
    let le' : b ≤ (oldest gw).size = rw hd le in
    (
      rw (← hd) (omega (arith, sizes-parts gw now s n w)),
      (
        after_write gw (wrote b) now,
        refl,
        sent gw now s n w b le',
        pending-after_write gw s.ring (wrote b) now n w
            ∙ left_of b (oldest gw) _ le' (packets-parts gw now s n w).0
            ∙ ap₂
                (λ (x : Message) (xs : List Message).
                  if b == x.size then xs else record { type = x.type; size = x.size - b } ∷ xs)
                hd tl,
        refl,
        refl,
        refl,
      ),
    )

-- A write that fails with EAGAIN takes nothing and makes the oldest packet one byte longer than it
-- is: whenever packets wait and the ring agrees with the buffer, it no longer does afterwards.
pub write_ready-again :
    (gw : Gateway) (now : ℕ)
    → InSync gw
    → pending gw ≢ []
    → (gw' : Gateway) × (write_ready gw again now ≡ some gw')
      × (gw'.write_buf ≡ gw.write_buf)
      × (sizes (pending gw') ≡ length gw'.write_buf + 1)
      × (¬ InSync gw')
unfolding write_ready
write_ready-again gw now s h =
    let (n, w) = waiting_some gw h in
    let grown : sizes (pending (after_write gw again now)) ≡ length gw.write_buf + 1 =
      omega (arith, sizes-after_write gw now s n w again, sizes-parts gw now s n w) in
    (after_write gw again now, refl, refl, grown, λ t. omega (arith, grown, t.bytes))
