-- ===== src/Handling/Links/Gateways.antt =====
-- A gateway that lgtd_lifx_gateway_open adds, and the packets of gateways.
use mathlib.Core.Path.{subst}
use lightsd.Router.Devices.Known.{Listed}
use lightsd.Router.Devices.Insert.{NoDuplicates}
use lightsd.Common.{
  ℕ, ◌≡◌, ◌≢◌, refl, sym, ap, ◌∙◌, inl, inr, List, [], ◌∷◌, false, Option, none, some, Bool-cases,
  Option-cases, ◌==◌, ==_refl, if_both, arith, ℕ_discrete,
}
use lightsd.Common.Bytes.{same_bytes}
use lightsd.Wire.PacketType
use lightsd.Wire.PacketTable.{PacketInfoMap}
use lightsd.Wire.Endian.{Host}
use lightsd.Wire.Header.{Header}
use lightsd.Wire.Receive.{Delivery}
use lightsd.Gateway.State.{opened}
use lightsd.Router.Network.{RoutedGateway, gateway_at}
use lightsd.Discovery.Watchdog.{World}
use lightsd.Handling.Packets.{
  System, gateway_get, gateway_open, get_or_open_gateway, handle_delivery, handle_packet,
}
use lightsd.Handling.Links.{bulbs_at, Numbered, Linked}
use lightsd.Handling.Links.Opened.{some_inj}
use lightsd.Handling.Links.Received.{Live, handle-Linked, note_packet-Linked, note_packet-Live}

gateway_at-Numbered :
    (gs : List RoutedGateway) (n : ℕ)
    → Numbered n gs
    → (g : RoutedGateway) × (gateway_at gs n ≡ some g)
unfolding gateway_at
gateway_at-Numbered [] n h = absurd h
gateway_at-Numbered (x ∷ gs) n h = elim (Bool-cases (x.number == n)) [
  | inl e ↦ (x, rw (e, gateway_at) refl)
  | inr e ↦ elim h [
    | inl f ↦ absurd (ground arith)
    | inr k ↦ let (g, f) = gateway_at-Numbered gs n k in (g, rw (e, gateway_at) f)
  ]
]

gateway_get-Numbered :
    (gs : List RoutedGateway) (peer : List ℕ) (n : ℕ) → gateway_get gs peer ≡ some n → Numbered n gs
unfolding gateway_get
gateway_get-Numbered [] peer n h = cc
gateway_get-Numbered (x ∷ gs) peer n h = elim (Bool-cases (same_bytes x.peer peer)) [
  | inl e ↦ inl (some_inj (rw (e, gateway_get) at h))
  | inr e ↦ inr (gateway_get-Numbered gs peer n (rw (e, gateway_get) at h))
]

module _ (number : ℕ) (peer site : List ℕ) (received_at : ℕ) (w : World) where
  abbrev new_gateway : RoutedGateway
  new_gateway = record { number = number; peer = peer; gw = opened site received_at }

  bulbs_at-first : bulbs_at (new_gateway ∷ w.net.gateways) number ≡ some []
  unfolding bulbs_at gateway_at
  bulbs_at-first = rw (bulbs_at, gateway_at, ==_refl number) refl

  bulbs_at-later :
      (n : ℕ) → number ≢ n → bulbs_at (new_gateway ∷ w.net.gateways) n ≡ bulbs_at w.net.gateways n
  unfolding bulbs_at gateway_at
  bulbs_at-later n ne =
      let f : (number == n) ≡ false = ground arith in rw (bulbs_at, gateway_at, f) refl

  no_list :
      gateway_at w.net.gateways number ≡ none
      → (n : ℕ) (list : List (List ℕ)) → bulbs_at w.net.gateways n ≡ some list
      → number ≢ n
  unfolding bulbs_at
  no_list free n list h e =
      let k : gateway_at w.net.gateways n ≡ none =
        ap (λ (m : ℕ). gateway_at w.net.gateways m) (sym e) ∙ free in
      let f : none ≡ some list = rw (k, bulbs_at) at h in cc

  gateway_open-Linked :
      gateway_at w.net.gateways number ≡ none
      → Linked w.net
      → Linked (gateway_open number peer site received_at w).net
  unfolding gateway_open
  gateway_open-Linked free l = record {
    distinct = l.distinct;
    numbers = (
      (λ h.
          let (g, e) = gateway_at-Numbered w.net.gateways number h in
          let f : none ≡ some g = sym free ∙ e in cc),
      l.numbers,
    );
    home = λ addr n h.
        let (list, e, i) = l.home addr n h in
        (list, bulbs_at-later n (no_list free n list e) ∙ e, i);
    back = λ n list addr h i. elim (ℕ_discrete number n) [
      | no ne ↦ l.back n list addr (sym (bulbs_at-later n ne) ∙ h) i
      | yes e ↦
          let f : list ≡ [] = some_inj (
            sym h
            ∙ ap (λ (m : ℕ). bulbs_at (new_gateway ∷ w.net.gateways) m) (sym e)
            ∙ bulbs_at-first) in
          absurd (subst (Listed addr) f i)
    ];
    once = λ n list h. elim (ℕ_discrete number n) [
      | no ne ↦ l.once n list (sym (bulbs_at-later n ne) ∙ h)
      | yes e ↦
          let f : list ≡ [] = some_inj (
            sym h
            ∙ ap (λ (m : ℕ). bulbs_at (new_gateway ∷ w.net.gateways) m) (sym e)
            ∙ bulbs_at-first) in
          subst NoDuplicates (sym f) tt
    ];
  }

  gateway_open-Live : Live number (gateway_open number peer site received_at w)
  unfolding gateway_open gateway_at
  gateway_open-Live = (new_gateway, rw (gateway_open, gateway_at, ==_refl number) refl)

-- A gateway that is live in a linked world, or none.
abbrev Ready : Option ℕ × World → Type 0
Ready (none, w) = Linked w.net
Ready (some me, w) = Live me w × Linked w.net

get_or_open_gateway-Ready :
    (system : System) (peer : List ℕ) (hdr : Header) (received_at : ℕ) (w : World)
    → gateway_at w.net.gateways system.number ≡ none
    → Linked w.net
    → Ready (get_or_open_gateway system peer hdr received_at w)
unfolding get_or_open_gateway
get_or_open_gateway-Ready system peer hdr received_at w free l =
    elim (Option-cases (gateway_get w.net.gateways peer)) [
      | inr (n, e) ↦
          rw (e, get_or_open_gateway)
            (gateway_at-Numbered w.net.gateways n (gateway_get-Numbered w.net.gateways peer n e), l)
      | inl e ↦
          rw (e, get_or_open_gateway)
            (if_both Ready (hdr.packet_type == PacketType.pan_gateway) _ _
              (if_both Ready system.opens _ _
                (
                  gateway_open-Live system.number peer hdr.site received_at w,
                  gateway_open-Linked system.number peer hdr.site received_at w free l,
                )
                l)
              l)
    ]

-- A gateway that is given is one of the list.
abbrev pub GivenLive : Option ℕ → World → Type 0
GivenLive none w = Unit {0}
GivenLive (some me) w = Live me w

module _ (host : Host) (client_id : ℕ) (M : PacketInfoMap) (system : System) where
  handle_delivery-Linked :
      (d : Delivery) (received_at : ℕ) (r : Option ℕ × World)
      → Ready r
      → Linked (handle_delivery host client_id M system d received_at r).net
  handle_delivery-Linked d received_at (none, w) l = l
  handle_delivery-Linked d received_at (some me, w) (live, l) =
      handle-Linked host client_id M system me _ _ _ _
        (note_packet-Live host client_id M system d.info.handle received_at me w live)
        (note_packet-Linked host client_id M system d.info.handle received_at me w l)

  -- If a new gateway would get a number that no gateway has, a gateway that the packet came to is in the list,
  -- and bulbs and gateways are linked, then they are after lgtd_lifx_gateway_handle_packet of any packet: each
  -- bulb of the table is in the list of its gateway, each bulb in the list of a gateway is in the table and on
  -- this gateway, and no address and no number is there twice.
  pub handle_packet-Linked :
      (me : Option ℕ) (peer : List ℕ) (d : Delivery) (received_at : ℕ) (w : World)
      → gateway_at w.net.gateways system.number ≡ none
      → GivenLive me w
      → Linked w.net
      → Linked (handle_packet host client_id M system me peer d received_at w).net
  unfolding handle_packet
  handle_packet-Linked (some me) peer d received_at w free live l =
      handle_delivery-Linked d received_at (some me, w) (live, l)
  handle_packet-Linked none peer d received_at w free live l =
      handle_delivery-Linked d received_at (get_or_open_gateway system peer d.hdr received_at w)
        (get_or_open_gateway-Ready system peer d.hdr received_at w free l)
