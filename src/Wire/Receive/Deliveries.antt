-- ===== src/Wire/Receive/Deliveries.antt =====
-- Which packets reach the gateway's handlers, and what ends the loop.
use lightsd.Common.{
  ℕ, ◌+◌, ◌<◌, ◌≤◌, ◌≡◌, ◌≢◌, refl, ◌∙◌, List, [], ◌∷◌, ◌++◌, true, false, some, ltb, ◌==◌, ==_iff,
  length, length-drop, drop, arith, All, inl, inr, Bool-cases, Option-cases, lt→ltb,
}
use lightsd.Wire.PacketType
use lightsd.Wire.PacketInfo.{packet_header_size}
use lightsd.Wire.PacketTable.{PacketInfoMap, get_packet_info}
use lightsd.Wire.Endian.{Host}
use lightsd.Wire.Header.{Header, decode_header, has_flag, protocol_addressable}
use lightsd.Wire.Receive.{
  read_header, Received, Delivery, Round, Verdict, with_delivery, on_packet, on_datagram,
  handle_receive,
}

-- A packet that may be handled: its size is that of the header and the payload, its type is the one
-- of its packet info, and is not GET_PAN_GATEWAY, and it is addressable.
pub record IsSound (host : Host) (M : PacketInfoMap) (d : Delivery) : Type 0 where
  pub whole : d.hdr.size ≡ packet_header_size + length d.pkt
  pub known : get_packet_info M d.hdr.packet_type ≡ some d.info
  pub not_discovery : d.hdr.packet_type ≢ PacketType.get_pan_gateway
  pub addressed : has_flag d.hdr.protocol (protocol_addressable host) ≡ true

abbrev SoundRound : Host → PacketInfoMap → Round → Type 0
SoundRound host M (Round.deliver d) = IsSound host M d
SoundRound host M _ = Unit {0}

module _ (host : Host) (M : PacketInfoMap) where
  on_packet-Sound :
      (hdr : Header) (pkt : List ℕ)
      → hdr.size ≡ packet_header_size + length pkt
      → SoundRound host M (on_packet host M hdr pkt)
  on_packet-Sound hdr pkt w = elim (Bool-cases (hdr.packet_type == PacketType.get_pan_gateway)) [
    | inl e ↦ rw e tt
    | inr e ↦ elim (Option-cases (get_packet_info M hdr.packet_type)) [
      | inl f ↦ rw (e, f) tt
      | inr (info, f) ↦ elim (Bool-cases (has_flag hdr.protocol (protocol_addressable host))) [
        | inl g ↦
            rw (e, f, g)
              (record {
                whole = w;
                known = f;
                not_discovery = λ h. ground (arith, e, h);
                addressed = g;
              })
        | inr g ↦ rw (e, f, g) tt
      ]
    ]
  ]

  on_datagram-Sound : (buf : List ℕ) → SoundRound host M (on_datagram host M buf)
  unfolding on_datagram
  on_datagram-Sound buf = elim (Bool-cases (ltb (length buf) packet_header_size)) [
    | inl e ↦ rw (on_datagram, e) tt
    | inr e ↦ elim (Bool-cases ((decode_header host (read_header host buf)).size == length buf)) [
      | inl f ↦
          rw (on_datagram, e, f)
            (on_packet-Sound (decode_header host (read_header host buf))
              (drop packet_header_size buf)
              (omega
                (arith, (==_iff _ _).0 f, length-drop packet_header_size buf, not_short buf e)))
      | inr f ↦ rw (on_datagram, e, f) tt
    ]
  ]
    where
      not_short :
          (b : List ℕ) → ltb (length b) packet_header_size ≡ false → packet_header_size ≤ length b
      not_short b h = ground arith

-- Whatever is received, every packet that lgtd_lifx_wire_handle_receive hands over is as long as its
-- header says, has the packet info of its type, is not a GET_PAN_GATEWAY and is addressable.
pub handle_receive-IsSound :
    (host : Host) (M : PacketInfoMap) (rs : List Received)
    → All (IsSound host M) (handle_receive host M rs).1
unfolding handle_receive
handle_receive-IsSound host M [] = tt
handle_receive-IsSound host M (Received.interrupted ∷ rs) = handle_receive-IsSound host M rs
handle_receive-IsSound host M (Received.would_block ∷ rs) = tt
handle_receive-IsSound host M (Received.error ∷ rs) = tt
handle_receive-IsSound host M (Received.datagram buf ∷ rs) =
    go (on_datagram host M buf) (on_datagram-Sound host M buf) (handle_receive-IsSound host M rs)
  where
    go :
        (r : Round)
        → SoundRound host M r
        → All (IsSound host M) (handle_receive host M rs).1
        → All
            (IsSound host M)
            (elim r as (λ _. Verdict × List Delivery) [
              | Round.reject ↦ (Verdict.returned false, [])
              | Round.skip ↦ handle_receive host M rs
              | Round.deliver d ↦ with_delivery d (handle_receive host M rs)
            ]).1
    go Round.reject s ih = tt
    go Round.skip s ih = ih
    go (Round.deliver d) s ih = (s, ih)

-- A result that lets the loop go on: an interrupted call, or a datagram that is not rejected.
abbrev pub GoesOn : Host → PacketInfoMap → Received → Type 0
GoesOn host M Received.interrupted = Unit {0}
GoesOn host M (Received.datagram buf) = on_datagram host M buf ≢ Round.reject
GoesOn host M _ = ⊥

verdict_of :
    (host : Host) (M : PacketInfoMap) (buf : List ℕ) (rs : List Received) (r : Round)
    → on_datagram host M buf ≡ r
    → r ≢ Round.reject
    → (handle_receive host M (Received.datagram buf ∷ rs)).0 ≡ (handle_receive host M rs).0
unfolding handle_receive
verdict_of host M buf rs Round.reject e ne = absurd (ne refl)
verdict_of host M buf rs Round.skip e ne = rw (handle_receive, e) refl
verdict_of host M buf rs (Round.deliver d) e ne = rw (handle_receive, e) refl

-- Results that let the loop go on do not decide what it returns.
pub handle_receive-append :
    (host : Host) (M : PacketInfoMap) (rs rest : List Received)
    → All (GoesOn host M) rs
    → (handle_receive host M (rs ++ rest)).0 ≡ (handle_receive host M rest).0
unfolding handle_receive
handle_receive-append host M [] rest h = refl
handle_receive-append host M (Received.interrupted ∷ rs) rest h =
    handle_receive-append host M rs rest h.1
handle_receive-append host M (Received.would_block ∷ rs) rest h = absurd h.0
handle_receive-append host M (Received.error ∷ rs) rest h = absurd h.0
handle_receive-append host M (Received.datagram buf ∷ rs) rest h =
    verdict_of host M buf (rs ++ rest) (on_datagram host M buf) refl h.0
    ∙ handle_receive-append host M rs rest h.1

-- After interrupted calls and datagrams that are not rejected, lgtd_lifx_wire_handle_receive returns
-- true once the socket is drained, and false, for which the gateway is dropped, at the first datagram
-- that is shorter than a header.
handle_receive-returns :
    (host : Host) (M : PacketInfoMap) (rs rest : List Received) (buf : List ℕ)
    → All (GoesOn host M) rs
    → length buf < packet_header_size
    → ((handle_receive host M (rs ++ (Received.would_block ∷ rest))).0 ≡ Verdict.returned true)
      × ((handle_receive host M (rs ++ (Received.datagram buf ∷ rest))).0 ≡ Verdict.returned false)
unfolding handle_receive on_datagram
handle_receive-returns host M rs rest buf h lt =
    let short : ltb (length buf) packet_header_size ≡ true = lt→ltb _ _ lt in
    (
      handle_receive-append host M rs (Received.would_block ∷ rest) h,
      handle_receive-append host M rs (Received.datagram buf ∷ rest) h
          ∙ rw (handle_receive, on_datagram, short) refl,
    )
