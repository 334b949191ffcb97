-- ===== src/Router/Sending.antt =====
-- lgtd_router_send and the functions that send a packet to all devices, to a tag and to a label. The
-- host's byte order, the client id and the tree of packet infos are given; `now` is the time in
-- milliseconds.
pub mod Results
pub mod Sent
pub mod Delivered
pub mod Expected
pub mod Links
use lightsd.Common.{
  ℕ, ◌+◌, List, [], ◌∷◌, Bool, true, false, not, ◌&&◌, Option, none, some, bit_and, ◌==◌, get_or,
  if◌then◌else◌,
}
use lightsd.Common.Bytes.{same_bytes}
use lightsd.Wire.PacketType
use lightsd.Wire.PacketTable.{PacketInfoMap, get_packet_info}
use lightsd.Wire.TagIds.{tag_id_to_value}
use lightsd.Wire.Endian.{Host, memory}
use lightsd.Wire.Header.{Target, header_bytes, setup_header}
use lightsd.Gateway.State.{Gateway}
use lightsd.Gateway.Queue.{enqueue_packet}
use lightsd.Gateway.Bulbs.{Bulb}
use lightsd.Tagging.{Site, Tag, find_tag}
use lightsd.Router.Network.{
  RoutedBulb, RoutedGateway, Network, gateway_at, has_label, isxdigit, device_addr_to_device,
}
use lightsd.Router.Devices.{tagged_bulbs, is_everything}

-- A packet that sets the power, with the power, or one of another type, with its encoded payload.
pub data Packet : Type 0 where
  sets_power : ℕ → Packet
  packet : ℕ → Option (List ℕ) → Packet

abbrev pub pkt_type : Packet → ℕ
pkt_type (Packet.sets_power power) = PacketType.set_power_state
pkt_type (Packet.packet type bytes) = type

abbrev pub encoded_payload : Host → Packet → Option (List ℕ)
encoded_payload host (Packet.sets_power power) = some (memory host 2 power)
encoded_payload host (Packet.packet type bytes) = bytes

-- What is noted at a bulb that is sent a packet.
abbrev pub expect : Packet → ℕ → RoutedBulb → RoutedBulb
expect (Packet.sets_power power) now b = record b {
  bulb = record (b.bulb) { dirty_at = now; expected_power_on = power };
}
expect (Packet.packet type bytes) now b = b

-- The same at a bulb of the table.
unfoldable pub expect_at : Packet → ℕ → List ℕ → List RoutedBulb → List RoutedBulb
expect_at pkt now addr [] = []
expect_at pkt now addr (b ∷ bulbs) =
    if same_bytes b.bulb.addr addr
    then expect pkt now b ∷ bulbs
    else b ∷ expect_at pkt now addr bulbs

unfoldable pub expect_each : Packet → ℕ → List (List ℕ) → List RoutedBulb → List RoutedBulb
expect_each pkt now [] bulbs = bulbs
expect_each pkt now (addr ∷ addrs) bulbs = expect_each pkt now addrs (expect_at pkt now addr bulbs)

module _ (host : Host) (client_id : ℕ) (M : PacketInfoMap) where
  -- The header and the queue.
  unfoldable pub enqueue_for : Target → Packet → RoutedGateway → RoutedGateway
  enqueue_for target pkt g = elim (get_packet_info M (pkt_type pkt)) [
    | none ↦ g
    | some info ↦ record g {
      gw =
          enqueue_packet g.gw
            (header_bytes host (setup_header host client_id target (some g.gw.site) info)) info
            (encoded_payload host pkt);
    }
  ]

  unfoldable pub enqueue_at : ℕ → Target → Packet → List RoutedGateway → List RoutedGateway
  enqueue_at number target pkt [] = []
  enqueue_at number target pkt (g ∷ gateways) =
      if g.number == number
      then enqueue_for target pkt g ∷ gateways
      else g ∷ enqueue_at number target pkt gateways

  -- The loop of lgtd_router_broadcast over the gateways.
  unfoldable pub broadcast_each :
      Packet → ℕ → List RoutedGateway → List RoutedBulb → List RoutedGateway × List RoutedBulb
  broadcast_each pkt now [] bulbs = ([], bulbs)
  broadcast_each pkt now (g ∷ gateways) bulbs =
      let (gateways', bulbs') =
        broadcast_each pkt now gateways (expect_each pkt now g.gw.bulbs bulbs) in
      (enqueue_for Target.all_devices pkt g ∷ gateways', bulbs')

  -- lgtd_router_broadcast
  abbrev pub broadcast : Network → Packet → ℕ → Network
  broadcast net pkt now =
      let (gateways, bulbs) = broadcast_each pkt now net.gateways net.bulbs in
      record net { gateways = gateways; bulbs = bulbs }

  -- lgtd_router_send_to_device
  unfoldable pub send_to_bulb : Network → RoutedBulb → Packet → ℕ → Network
  send_to_bulb net b pkt now = record net {
    gateways = enqueue_at b.gw (Target.device (b.bulb.addr)) pkt net.gateways;
    bulbs = expect_at pkt now b.bulb.addr net.bulbs;
  }

  -- The loop of lgtd_router_send_to_tag over the sites.
  unfoldable pub send_to_sites : List Site → Network → Packet → ℕ → Network
  send_to_sites [] net pkt now = net
  send_to_sites (site ∷ sites) net pkt now =
      let tag : ℕ = tag_id_to_value site.tag_id in
      elim (gateway_at net.gateways site.gw) [
        | none ↦ send_to_sites sites net pkt now
        | some g ↦
            send_to_sites sites
              (record net {
                gateways = enqueue_at site.gw (Target.tags tag) pkt net.gateways;
                bulbs = expect_each pkt now (tagged_bulbs net tag g.gw.bulbs) net.bulbs;
              })
              pkt now
      ]

  -- lgtd_router_send_to_tag
  abbrev pub send_to_tag : Network → Tag → Packet → ℕ → Network
  send_to_tag net tag pkt now = send_to_sites tag.sites net pkt now

  -- The loop of lgtd_router_send_to_label over the tree of bulbs.
  unfoldable pub each_labelled :
      List ℕ
      → Packet
      → ℕ
      → List RoutedBulb
      → List RoutedGateway
      → List RoutedBulb × List RoutedGateway
  each_labelled label pkt now [] gateways = ([], gateways)
  each_labelled label pkt now (b ∷ bulbs) gateways =
      let has : Bool = has_label b.bulb label in
      let (bulbs', gateways') =
        each_labelled label pkt now bulbs
          (if has then enqueue_at b.gw (Target.device (b.bulb.addr)) pkt gateways else gateways) in
      ((if has then expect pkt now b else b) ∷ bulbs', gateways')

  -- lgtd_router_send_to_label
  abbrev pub send_to_label : Network → List ℕ → Packet → ℕ → Network
  send_to_label net label pkt now =
      let (bulbs, gateways) = each_labelled label pkt now net.bulbs net.gateways in
      record net { gateways = gateways; bulbs = bulbs }

  -- An address, if it is that of a bulb, and else a label.
  unfoldable pub send_to_name : Network → List ℕ → Packet → ℕ → Network
  send_to_name net target pkt now =
      if isxdigit (get_or target 0 0)
      then (elim (device_addr_to_device net target) [
        | none ↦ send_to_label net target pkt now
        | some b ↦ send_to_bulb net b pkt now
      ])
      else send_to_label net target pkt now

  -- A tag; `false` when there is none with this label.
  unfoldable pub send_to_tag_named : Network → List ℕ → Packet → ℕ → Bool × Network
  send_to_tag_named net label pkt now = elim (find_tag net.tags label) [
    | none ↦ (false, net)
    | some tag ↦ (true, send_to_tag net tag pkt now)
  ]

  -- What is done for one target, with `false` for one that is no target.
  unfoldable pub send_one : Network → List ℕ → Packet → ℕ → Bool × Network
  send_one net [] pkt now = (false, net)
  send_one net (c ∷ label) pkt now =
      if is_everything (c ∷ label)
      then (true, broadcast net pkt now)
      else if c == b'#'
      then send_to_tag_named net label pkt now
      else (true, send_to_name net (c ∷ label) pkt now)

  -- lgtd_router_send
  unfoldable pub send : Network → List (List ℕ) → Packet → ℕ → Bool × Network
  send net [] pkt now = (true, net)
  send net (target ∷ targets) pkt now =
      let (sent, net') = send_one net target pkt now in
      let (rv, net'') = send net' targets pkt now in (sent && rv, net'')
