-- ===== src/Gateway/Queue/Drained.antt =====
-- The socket of a gateway that is ready to write again and again, as long as its event is added.
use mathlib.Core.Path.{subst}
use lightsd.Common.{
  inl, inr, Bool-cases, ◌==◌, ℕ, zero, suc, ◌+◌, ◌-◌, ◌≤◌, ◌<◌, ◌≡◌, ◌≢◌, refl, sym, ap, ◌∙◌, List,
  [], ◌∷◌, true, false, some, length, length-drop, arith,
}
use lightsd.Gateway.State.{Gateway, Message}
use lightsd.Gateway.Queue.{wrote, write_ready}
use lightsd.Gateway.Queue.Fifo.{pending}
use lightsd.Gateway.Queue.Sent.{oldest, pending_parts}
use lightsd.Gateway.Queue.Sync.{ArePackets, InSync, sizes, waiting_some, packets-parts}
use lightsd.Gateway.Queue.Writes.{write_ready-wrote}

-- A run of the socket's callback from a gateway, with the number of writes. Each write happens while the
-- event is added, and takes any number of bytes of the oldest message, one at least and all of it at most.
pub data Writes (gw : Gateway) : ℕ → Gateway → Type 0 where
  start : Writes gw zero gw
  write :
      (n : ℕ) (gw1 gw2 : Gateway) (b now : ℕ)
      → Writes gw n gw1
      → gw1.event_added ≡ true
      → 0 < b
      → b ≤ (oldest gw1).size
      → write_ready gw1 (wrote b) now ≡ some gw2
      → Writes gw (suc n) gw2

-- Nothing waits, and nothing is left to write.
pub record Drained (gw : Gateway) : Type 0 where
  pub no_bytes : gw.write_buf ≡ []
  pub no_messages : pending gw ≡ []
  pub no_event : gw.event_added ≡ false

none_left : (ms : List Message) → ArePackets ms → sizes ms ≡ 0 → ms ≡ []
none_left [] h e = refl
none_left (m ∷ ms) (p, h) e = absurd (omega arith)

no_length : (bs : List ℕ) → length bs ≡ 0 → bs ≡ []
no_length [] e = refl
no_length (b ∷ bs) e = absurd (omega arith)

InSync-Drained : (gw : Gateway) → InSync gw → length gw.write_buf ≡ 0 → Drained gw
InSync-Drained gw s e = record {
  no_bytes = no_length gw.write_buf e;
  no_messages = none_left (pending gw) s.packets (s.bytes ∙ e);
  no_event = s.idle e;
}

-- While the event is added there is a packet to write.
waits : (gw : Gateway) → InSync gw → gw.event_added ≡ true → pending gw ≢ []
waits gw s e f =
    let g : gw.event_added ≡ false = s.idle (sym s.bytes ∙ ap sizes f) in
    let h : true ≡ false = sym e ∙ g in cc

inj : {a b : Gateway} → some a ≡ some b → a ≡ b
inj e = cc

-- One write leaves the ring and the buffer in step, with less in the buffer.
write_one :
    (gw gw' : Gateway) (b now : ℕ)
    → InSync gw
    → gw.event_added ≡ true
    → 0 < b
    → b ≤ (oldest gw).size
    → write_ready gw (wrote b) now ≡ some gw'
    → InSync gw' × (length gw'.write_buf + b ≡ length gw.write_buf)
write_one gw gw' b now s added more most e =
    let (k, w) = waiting_some gw (waits gw s added) in
    let (le, (gw2, f, s2, _, buf, _, _)) =
      write_ready-wrote gw now b (oldest gw) _ s (pending_parts gw s.ring (wrote 0) now k w) most in
    let same : gw2 ≡ gw' = inj (sym f ∙ e) in
    let shorter : length gw2.write_buf ≡ length gw.write_buf - b =
      ap length buf ∙ length-drop b gw.write_buf in
    (
      subst InSync same s2,
      ap (λ (g : Gateway). length g.write_buf + b) (sym same) ∙ omega (arith, shorter, le, most),
    )

run :
    {gw gw' : Gateway} {n : ℕ}
    → Writes gw n gw'
    → InSync gw
    → InSync gw' × (n + length gw'.write_buf ≤ length gw.write_buf)
run Writes.start s = (s, omega arith)
run (Writes.write n gw1 gw2 b now r added more most e) s =
    let (s1, le) = run r s in
    let (s2, shorter) = write_one gw1 gw2 b now s1 added more most e in
    (s2, omega (arith, le, shorter, more))

-- If the ring and the write buffer are in step, then in a run of the socket's callback, in which each write
-- takes at least one byte of the oldest packet and no more than it has, the writes and the bytes that are left
-- are together at most as many as the bytes there were. When the event of the socket is no longer added,
-- everything is written and no packet waits; while it is added, the oldest packet has a byte to write. After
-- as many writes as there were bytes, everything is written.
pub Writes-Drained :
    (gw gw' : Gateway) (n : ℕ)
    → InSync gw
    → Writes gw n gw'
    → (n + length gw'.write_buf ≤ length gw.write_buf)
      × (gw'.event_added ≡ false → Drained gw')
      × (gw'.event_added ≡ true → 0 < (oldest gw').size)
      × (n ≡ length gw.write_buf → Drained gw')
Writes-Drained gw gw' n s r =
    let (s', le) = run r s in
    (
      le,
      (λ off. InSync-Drained gw' s' (empty_if gw' s' off)),
      (λ on. let (k, w) = waiting_some gw' (waits gw' s' on) in (packets-parts gw' 0 s' k w).0),
      (λ all. InSync-Drained gw' s' (omega (arith, le, all))),
    )
  where
    empty_if : (g : Gateway) → InSync g → g.event_added ≡ false → length g.write_buf ≡ 0
    empty_if g t off = elim (Bool-cases (length g.write_buf == 0)) [
      | inl z ↦ ground arith
      | inr z ↦
          let on : g.event_added ≡ true = t.busy (ground arith) in
          let f : true ≡ false = sym on ∙ off in cc
    ]
