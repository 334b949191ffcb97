-- ===== src/Gateway/Queue/Sent.antt =====
-- What a write to the socket leaves in the queue.
use lightsd.Common.{
  ℕ, suc, ◌+◌, ◌%◌, ◌≤◌, ◌≡◌, refl, ap, ap₂, ◌∙◌, List, ◌∷◌, true, false, get_or, set, length-set,
  get_or-set_self, if◌then◌else◌, ◌==◌, arith, Bool-cases, inl, inr,
}
use lightsd.Gateway.State.{Gateway, Message, no_message}
use lightsd.Gateway.Queue.{WriteResult, size_after, after_write}
use lightsd.Gateway.Queue.Window.{window, window_cong, window-set_outside}
use lightsd.Gateway.Queue.Fifo.{IsRing, pending, waiting}

-- The message that is being written.
abbrev pub oldest : Gateway → Message
oldest gw = get_or gw.pkt_ring gw.pkt_ring_tail no_message

pub waiting-le : (gw : Gateway) → waiting gw ≤ 16
unfolding waiting
waiting-le gw = ground arith

module _ (gw : Gateway) (v : IsRing gw) (result : WriteResult) (now n : ℕ)
    (w : waiting gw ≡ suc n) where
  abbrev pub rest : List Message
  rest = window gw.pkt_ring ((gw.pkt_ring_tail + 1) % 16) n

  pub pending_parts : pending gw ≡ oldest gw ∷ rest
  pending_parts = ap (window gw.pkt_ring gw.pkt_ring_tail) w

  abbrev pub left : ℕ
  left = size_after result (oldest gw).size

  abbrev pub written : Message
  written = record { type = if left == 0 then 0 else (oldest gw).type; size = left }

  pub after_write-IsRing : IsRing (after_write gw result now)
  after_write-IsRing =
      ground (arith, length-set gw.pkt_ring gw.pkt_ring_tail written, v.slots, v.meets)

  waiting_sent : (left == 0) ≡ true → waiting (after_write gw result now) ≡ n
  unfolding waiting
  waiting_sent e = rw e (ground (arith, v.head_in, v.tail_in, v.meets))

  waiting_kept : (left == 0) ≡ false → waiting (after_write gw result now) ≡ suc n
  unfolding waiting
  waiting_kept e = rw e w

  tail_sent :
      (left == 0) ≡ true → (after_write gw result now).pkt_ring_tail ≡ (gw.pkt_ring_tail + 1) % 16
  tail_sent e = rw e

  tail_kept : (left == 0) ≡ false → (after_write gw result now).pkt_ring_tail ≡ gw.pkt_ring_tail
  tail_kept e = rw e

  rest_kept :
      window (set gw.pkt_ring gw.pkt_ring_tail written) ((gw.pkt_ring_tail + 1) % 16) n ≡ rest
  rest_kept =
      window-set_outside gw.pkt_ring written gw.pkt_ring_tail ((gw.pkt_ring_tail + 1) % 16) n
        (omega arith) (λ k lt. omega (arith, v.tail_in, waiting-le gw, w))

  -- What is left of the queue after `left` bytes of the oldest message remain.
  pub pending-after_write :
      pending (after_write gw result now) ≡ (if left == 0 then rest else written ∷ rest)
  pending-after_write = elim (Bool-cases (left == 0)) [
    | inl e ↦ window_cong refl (tail_sent e) (waiting_sent e) ∙ rest_kept ∙ rw e
    | inr e ↦
        window_cong refl (tail_kept e) (waiting_kept e)
        ∙ ap₂ ◌∷◌
            (get_or-set_self gw.pkt_ring gw.pkt_ring_tail written no_message
              (omega (arith, v.slots, v.tail_in)))
            rest_kept
        ∙ rw e
  ]
