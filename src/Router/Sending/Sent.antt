-- ===== src/Router/Sending/Sent.antt =====
-- What a packet that is sent to all devices, to a tag, to a label or to a device is put into: the queues of
-- which gateways, and which bulbs are expected to change.
use lightsd.Common.{
  ℕ, ◌≡◌, refl, ap, inl, inr, List, [], ◌∷◌, ◌++◌, map, none, some, true, false, Bool-cases,
  Option-cases, if◌then◌else◌,
}
use lightsd.Wire.PacketTable.{PacketInfoMap}
use lightsd.Wire.TagIds.{tag_id_to_value}
use lightsd.Wire.Endian.{Host}
use lightsd.Wire.Header.{Target}
use lightsd.Tagging.{Site}
use lightsd.Router.Network.{RoutedBulb, RoutedGateway, Network, gateway_at, has_label}
use lightsd.Router.Devices.{tagged_bulbs}
use lightsd.Router.Sending.{
  Packet, expect, expect_at, expect_each, enqueue_for, enqueue_at, broadcast_each, broadcast,
  send_to_sites, each_labelled, send_to_label, send_to_bulb,
}
use lightsd.Router.Sending.Expected.{send_to_label-map}

-- The bulbs of all gateways, in order.
abbrev pub all_bulbs : List RoutedGateway → List (List ℕ)
all_bulbs [] = []
all_bulbs (g ∷ gateways) = g.gw.bulbs ++ all_bulbs gateways

expect_each-++ :
    (pkt : Packet) (now : ℕ) (xs ys : List (List ℕ)) (bulbs : List RoutedBulb)
    → expect_each pkt now (xs ++ ys) bulbs ≡ expect_each pkt now ys (expect_each pkt now xs bulbs)
unfolding expect_each
expect_each-++ pkt now [] ys bulbs = refl
expect_each-++ pkt now (x ∷ xs) ys bulbs = expect_each-++ pkt now xs ys (expect_at pkt now x bulbs)

module _ (host : Host) (client_id : ℕ) (M : PacketInfoMap) (pkt : Packet) (now : ℕ) where
  -- Every gateway has the packet in its queue, for all devices; every bulb of a gateway is expected to change.
  pub record SentToAll (net net' : Network) : Type 0 where
    pub queues :
        net'.gateways ≡ map (enqueue_for host client_id M Target.all_devices pkt) net.gateways
    pub bulbs : net'.bulbs ≡ expect_each pkt now (all_bulbs net.gateways) net.bulbs
    pub tags : net'.tags ≡ net.tags

  -- The gateway of the bulb has the packet in its queue, for this device.
  pub record SentToDevice (b : RoutedBulb) (net net' : Network) : Type 0 where
    pub queues :
        net'.gateways
        ≡ enqueue_at host client_id M b.gw (Target.device b.bulb.addr) pkt net.gateways
    pub bulbs : net'.bulbs ≡ expect_at pkt now b.bulb.addr net.bulbs
    pub tags : net'.tags ≡ net.tags

  -- For each bulb with the label, in the order of the table, the gateway of the bulb has the packet in its queue.
  pub data Labelled (label : List ℕ)
      : List RoutedBulb → List RoutedGateway → List RoutedGateway → Type 0 where
    done : (gateways : List RoutedGateway) → Labelled label [] gateways gateways
    sent :
        (b : RoutedBulb) (bulbs : List RoutedBulb) (gateways gateways' : List RoutedGateway)
        → has_label b.bulb label ≡ true
        → Labelled label bulbs
            (enqueue_at host client_id M b.gw (Target.device b.bulb.addr) pkt gateways)
            gateways'
        → Labelled label (b ∷ bulbs) gateways gateways'
    other :
        (b : RoutedBulb) (bulbs : List RoutedBulb) (gateways gateways' : List RoutedGateway)
        → has_label b.bulb label ≡ false
        → Labelled label bulbs gateways gateways'
        → Labelled label (b ∷ bulbs) gateways gateways'

  pub record SentToLabel (label : List ℕ) (net net' : Network) : Type 0 where
    pub queues : Labelled label net.bulbs net.gateways net'.gateways
    pub bulbs :
        net'.bulbs
        ≡ map (λ (b : RoutedBulb). if has_label b.bulb label then expect pkt now b else b) net.bulbs
    pub tags : net'.tags ≡ net.tags

  -- For each site of a tag with a gateway, the gateway has the packet in its queue, for the id of the tag there,
  -- and its bulbs with this id are expected to change.
  pub data SentToSites : List Site → Network → Network → Type 0 where
    done : (net : Network) → SentToSites [] net net
    no_gateway :
        (site : Site) (sites : List Site) (net net' : Network)
        → gateway_at net.gateways site.gw ≡ none
        → SentToSites sites net net'
        → SentToSites (site ∷ sites) net net'
    sent :
        (site : Site) (sites : List Site) (g : RoutedGateway) (net net' : Network)
        → gateway_at net.gateways site.gw ≡ some g
        → SentToSites sites
            (record net {
              gateways =
                  enqueue_at host client_id M site.gw
                    (Target.tags (tag_id_to_value site.tag_id))
                    pkt
                    net.gateways;
              bulbs =
                  expect_each pkt now
                    (tagged_bulbs net (tag_id_to_value site.tag_id) g.gw.bulbs)
                    net.bulbs;
            })
            net'
        → SentToSites (site ∷ sites) net net'

  broadcast_each-queues :
      (gateways : List RoutedGateway) (bulbs : List RoutedBulb)
      → (broadcast_each host client_id M pkt now gateways bulbs).0
        ≡ map (enqueue_for host client_id M Target.all_devices pkt) gateways
  unfolding broadcast_each
  broadcast_each-queues [] bulbs = refl
  broadcast_each-queues (g ∷ gateways) bulbs =
      ap (λ (gs : List RoutedGateway). enqueue_for host client_id M Target.all_devices pkt g ∷ gs)
        (broadcast_each-queues gateways _)

  broadcast_each-bulbs :
      (gateways : List RoutedGateway) (bulbs : List RoutedBulb)
      → (broadcast_each host client_id M pkt now gateways bulbs).1
        ≡ expect_each pkt now (all_bulbs gateways) bulbs
  unfolding broadcast_each expect_each
  broadcast_each-bulbs [] bulbs = refl
  broadcast_each-bulbs (g ∷ gateways) bulbs =
      rw (expect_each-++ pkt now g.gw.bulbs (all_bulbs gateways) bulbs)
        (broadcast_each-bulbs gateways _)

  pub broadcast-SentToAll : (net : Network) → SentToAll net (broadcast host client_id M net pkt now)
  broadcast-SentToAll net = record {
    queues = broadcast_each-queues net.gateways net.bulbs;
    bulbs = broadcast_each-bulbs net.gateways net.bulbs;
    tags = refl;
  }

  pub send_to_bulb-SentToDevice :
      (b : RoutedBulb) (net : Network)
      → SentToDevice b net (send_to_bulb host client_id M net b pkt now)
  unfolding send_to_bulb
  send_to_bulb-SentToDevice b net = record { queues = refl; bulbs = refl; tags = refl }

  each_labelled-Labelled :
      (label : List ℕ) (bulbs : List RoutedBulb) (gateways : List RoutedGateway)
      → Labelled label bulbs gateways
          (each_labelled host client_id M label pkt now bulbs gateways).1
  unfolding each_labelled
  each_labelled-Labelled label [] gateways = Labelled.done gateways
  each_labelled-Labelled label (b ∷ bulbs) gateways = elim (Bool-cases (has_label b.bulb label)) [
    | inl e ↦
        rw (e, each_labelled)
          (Labelled.sent b bulbs gateways _ e (each_labelled-Labelled label bulbs _))
    | inr e ↦
        rw (e, each_labelled)
          (Labelled.other b bulbs gateways _ e (each_labelled-Labelled label bulbs gateways))
  ]

  pub send_to_label-SentToLabel :
      (label : List ℕ) (net : Network)
      → SentToLabel label net (send_to_label host client_id M net label pkt now)
  send_to_label-SentToLabel label net = record {
    queues = each_labelled-Labelled label net.bulbs net.gateways;
    bulbs = send_to_label-map host client_id M net label pkt now;
    tags = refl;
  }

  pub send_to_sites-SentToSites :
      (sites : List Site) (net : Network)
      → SentToSites sites net (send_to_sites host client_id M sites net pkt now)
  unfolding send_to_sites
  send_to_sites-SentToSites [] net = SentToSites.done net
  send_to_sites-SentToSites (site ∷ sites) net =
      elim (Option-cases (gateway_at net.gateways site.gw)) [
        | inl e ↦
            rw (e, send_to_sites)
              (SentToSites.no_gateway site sites net _ e (send_to_sites-SentToSites sites net))
        | inr (g, e) ↦
            rw (e, send_to_sites)
              (SentToSites.sent site sites g net _ e (send_to_sites-SentToSites sites _))
      ]
