-- ===== src/Router/Sending/Expected.antt =====
-- The power that bulbs are expected to have after a packet was sent.
use lightsd.Common.{ℕ, ◌≡◌, refl, ap, List, [], ◌∷◌, map, if◌then◌else◌}
use lightsd.Wire.PacketTable.{PacketInfoMap}
use lightsd.Wire.Endian.{Host}
use lightsd.Router.Network.{RoutedBulb, RoutedGateway, Network, has_label}
use lightsd.Router.Sending.{Packet, expect, each_labelled, send_to_label}

module _ (host : Host) (client_id : ℕ) (M : PacketInfoMap) where
  each_labelled-map :
      (label : List ℕ) (pkt : Packet) (now : ℕ) (bulbs : List RoutedBulb)
      (gateways : List RoutedGateway)
      → (each_labelled host client_id M label pkt now bulbs gateways).0
        ≡ map (λ (b : RoutedBulb). if has_label b.bulb label then expect pkt now b else b) bulbs
  unfolding each_labelled
  each_labelled-map label pkt now [] gateways = refl
  each_labelled-map label pkt now (b ∷ bulbs) gateways =
      ap (λ (r : List RoutedBulb). (if has_label b.bulb label then expect pkt now b else b) ∷ r)
        (each_labelled-map label pkt now bulbs _)

  -- Sending a packet to a label leaves every bulb of the table in its place, notes the packet at each bulb
  -- that has the label (a power is what the bulb is expected to have from now on), and leaves each other
  -- bulb as it was.
  pub send_to_label-map :
      (net : Network) (label : List ℕ) (pkt : Packet) (now : ℕ)
      → (send_to_label host client_id M net label pkt now).bulbs
        ≡ map (λ (b : RoutedBulb). if has_label b.bulb label then expect pkt now b else b) net.bulbs
  send_to_label-map net label pkt now = each_labelled-map label pkt now net.bulbs net.gateways
