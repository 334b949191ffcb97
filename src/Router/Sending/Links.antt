-- ===== src/Router/Sending/Links.antt =====
-- What lgtd_router_send leaves as it was: the addresses and gateways of the bulbs, and the lists of the
-- gateways.
use lightsd.Common.{
  ℕ, refl, inl, inr, List, [], ◌∷◌, Bool, Bool-cases, Option-cases, ◌==◌, if_both, get_or,
  if◌then◌else◌,
}
use lightsd.Common.Bytes.{same_bytes}
use lightsd.Wire.PacketTable.{PacketInfoMap, get_packet_info}
use lightsd.Wire.TagIds.{tag_id_to_value}
use lightsd.Wire.Endian.{Host}
use lightsd.Wire.Header.{Target}
use lightsd.Tagging.{Site, find_tag}
use lightsd.Router.Network.{
  RoutedBulb, RoutedGateway, Network, gateway_at, has_label, isxdigit, device_addr_to_device,
}
use lightsd.Router.Devices.{tagged_bulbs, is_everything}
use lightsd.Router.Sending.{
  Packet, pkt_type, encoded_payload, expect, expect_at, expect_each, enqueue_for, enqueue_at,
  broadcast_each, send_to_bulb, send_to_sites, each_labelled, send_to_label, send_to_name,
  send_to_tag_named, send_one, send,
}
use lightsd.Handling.Links.{
  SameBulbs, SameGateways, SameLinks, SameBulbs-refl, SameGateways-refl, SameBulbs-trans,
  SameGateways-trans, SameLinks-trans, SameLinks-refl,
}
use lightsd.Handling.Links.Kept.{enqueue_packet-bulbs}

expect-SameBulbs :
    (pkt : Packet) (now : ℕ) (b : RoutedBulb) {bs cs : List RoutedBulb}
    → SameBulbs bs cs
    → SameBulbs (b ∷ bs) (expect pkt now b ∷ cs)
expect-SameBulbs (Packet.sets_power power) now b h = SameBulbs.cons b _ refl refl h
expect-SameBulbs (Packet.packet type bytes) now b h = SameBulbs.cons b b refl refl h

expect_at-SameBulbs :
    (pkt : Packet) (now : ℕ) (addr : List ℕ) (bs : List RoutedBulb)
    → SameBulbs bs (expect_at pkt now addr bs)
unfolding expect_at
expect_at-SameBulbs pkt now addr [] = SameBulbs.nil
expect_at-SameBulbs pkt now addr (b ∷ bs) =
    if_both (SameBulbs (b ∷ bs)) (same_bytes b.bulb.addr addr) _ _
      (expect-SameBulbs pkt now b (SameBulbs-refl bs))
      (SameBulbs.cons b b refl refl (expect_at-SameBulbs pkt now addr bs))

expect_each-SameBulbs :
    (pkt : Packet) (now : ℕ) (addrs : List (List ℕ)) (bs : List RoutedBulb)
    → SameBulbs bs (expect_each pkt now addrs bs)
unfolding expect_each
expect_each-SameBulbs pkt now [] bs = SameBulbs-refl bs
expect_each-SameBulbs pkt now (addr ∷ addrs) bs =
    SameBulbs-trans (expect_at-SameBulbs pkt now addr bs)
      (expect_each-SameBulbs pkt now addrs (expect_at pkt now addr bs))

module _ (host : Host) (client_id : ℕ) (M : PacketInfoMap) where
  enqueue_for-SameGateways :
      (target : Target) (pkt : Packet) (g : RoutedGateway) {gs hs : List RoutedGateway}
      → SameGateways gs hs
      → SameGateways (g ∷ gs) (enqueue_for host client_id M target pkt g ∷ hs)
  unfolding enqueue_for
  enqueue_for-SameGateways target pkt g h = elim (Option-cases (get_packet_info M (pkt_type pkt))) [
    | inl e ↦ rw (e, enqueue_for) (SameGateways.cons g g refl refl h)
    | inr (info, e) ↦
        rw (e, enqueue_for)
          (SameGateways.cons g _ refl (enqueue_packet-bulbs g.gw _ info (encoded_payload host pkt))
            h)
  ]

  enqueue_at-SameGateways :
      (number : ℕ) (target : Target) (pkt : Packet) (gs : List RoutedGateway)
      → SameGateways gs (enqueue_at host client_id M number target pkt gs)
  unfolding enqueue_at
  enqueue_at-SameGateways number target pkt [] = SameGateways.nil
  enqueue_at-SameGateways number target pkt (g ∷ gs) =
      if_both (SameGateways (g ∷ gs)) (g.number == number) _ _
        (enqueue_for-SameGateways target pkt g (SameGateways-refl gs))
        (SameGateways.cons g g refl refl (enqueue_at-SameGateways number target pkt gs))

  broadcast_each-Same :
      (pkt : Packet) (now : ℕ) (gs : List RoutedGateway) (bs : List RoutedBulb)
      → SameGateways gs (broadcast_each host client_id M pkt now gs bs).0
        × SameBulbs bs (broadcast_each host client_id M pkt now gs bs).1
  unfolding broadcast_each
  broadcast_each-Same pkt now [] bs = (SameGateways.nil, SameBulbs-refl bs)
  broadcast_each-Same pkt now (g ∷ gs) bs =
      let (h, k) = broadcast_each-Same pkt now gs (expect_each pkt now g.gw.bulbs bs) in
      (
        enqueue_for-SameGateways Target.all_devices pkt g h,
        SameBulbs-trans (expect_each-SameBulbs pkt now g.gw.bulbs bs) k,
      )

  pub send_to_bulb-SameLinks :
      (net : Network) (b : RoutedBulb) (pkt : Packet) (now : ℕ)
      → SameLinks net (send_to_bulb host client_id M net b pkt now)
  unfolding send_to_bulb
  send_to_bulb-SameLinks net b pkt now = (
    expect_at-SameBulbs pkt now b.bulb.addr net.bulbs,
    enqueue_at-SameGateways b.gw (Target.device (b.bulb.addr)) pkt net.gateways,
  )

  send_to_sites-SameLinks :
      (sites : List Site) (net : Network) (pkt : Packet) (now : ℕ)
      → SameLinks net (send_to_sites host client_id M sites net pkt now)
  unfolding send_to_sites
  send_to_sites-SameLinks [] net pkt now = SameLinks-refl net
  send_to_sites-SameLinks (site ∷ sites) net pkt now =
      elim (Option-cases (gateway_at net.gateways site.gw)) [
        | inl e ↦ rw (e, send_to_sites) (send_to_sites-SameLinks sites net pkt now)
        | inr (g, e) ↦
            let tag : ℕ = tag_id_to_value site.tag_id in
            let net' : Network = record net {
              gateways = enqueue_at host client_id M site.gw (Target.tags tag) pkt net.gateways;
              bulbs = expect_each pkt now (tagged_bulbs net tag g.gw.bulbs) net.bulbs;
            } in
            rw (e, send_to_sites)
              (SameLinks-trans net net' (send_to_sites host client_id M sites net' pkt now)
                (
                  expect_each-SameBulbs pkt now (tagged_bulbs net tag g.gw.bulbs) net.bulbs,
                  enqueue_at-SameGateways site.gw (Target.tags tag) pkt net.gateways,
                )
                (send_to_sites-SameLinks sites net' pkt now))
      ]

  each_labelled-Same :
      (label : List ℕ) (pkt : Packet) (now : ℕ) (bs : List RoutedBulb) (gs : List RoutedGateway)
      → SameBulbs bs (each_labelled host client_id M label pkt now bs gs).0
        × SameGateways gs (each_labelled host client_id M label pkt now bs gs).1
  unfolding each_labelled
  each_labelled-Same label pkt now [] gs = (SameBulbs.nil, SameGateways-refl gs)
  each_labelled-Same label pkt now (b ∷ bs) gs =
      let has : Bool = has_label b.bulb label in
      let queued : List RoutedGateway =
        if has then enqueue_at host client_id M b.gw (Target.device (b.bulb.addr)) pkt gs else gs in
      let (h, k) = each_labelled-Same label pkt now bs queued in
      (
        if_both
            (λ (x : RoutedBulb).
              SameBulbs (b ∷ bs) (x ∷ (each_labelled host client_id M label pkt now bs queued).0))
            has _ _ (expect-SameBulbs pkt now b h) (SameBulbs.cons b b refl refl h),
        SameGateways-trans
            (if_both (SameGateways gs) has _ _
              (enqueue_at-SameGateways b.gw (Target.device (b.bulb.addr)) pkt gs)
              (SameGateways-refl gs))
            k,
      )

  send_to_name-SameLinks :
      (net : Network) (target : List ℕ) (pkt : Packet) (now : ℕ)
      → SameLinks net (send_to_name host client_id M net target pkt now)
  unfolding send_to_name
  send_to_name-SameLinks net target pkt now =
      let labelled : SameLinks net (send_to_label host client_id M net target pkt now) =
        each_labelled-Same target pkt now net.bulbs net.gateways in
      elim (Bool-cases (isxdigit (get_or target 0 0))) [
        | inr e ↦ rw (e, send_to_name) labelled
        | inl e ↦ elim (Option-cases (device_addr_to_device net target)) [
          | inl f ↦ rw (e, f, send_to_name) labelled
          | inr (b, f) ↦ rw (e, f, send_to_name) (send_to_bulb-SameLinks net b pkt now)
        ]
      ]

  send_to_tag_named-SameLinks :
      (net : Network) (label : List ℕ) (pkt : Packet) (now : ℕ)
      → SameLinks net (send_to_tag_named host client_id M net label pkt now).1
  unfolding send_to_tag_named
  send_to_tag_named-SameLinks net label pkt now = elim (Option-cases (find_tag net.tags label)) [
    | inl e ↦ rw (e, send_to_tag_named) (SameLinks-refl net)
    | inr (tag, e) ↦ rw (e, send_to_tag_named) (send_to_sites-SameLinks tag.sites net pkt now)
  ]

  send_one-SameLinks :
      (net : Network) (target : List ℕ) (pkt : Packet) (now : ℕ)
      → SameLinks net (send_one host client_id M net target pkt now).1
  unfolding send_one
  send_one-SameLinks net [] pkt now = SameLinks-refl net
  send_one-SameLinks net (c ∷ label) pkt now =
      let P : Bool × Network → Type 0 = λ r. SameLinks net r.1 in
      let all = broadcast_each-Same pkt now net.gateways net.bulbs in
      if_both P (is_everything (c ∷ label)) _ _ (all.1, all.0)
        (if_both P (c == b'#') _ _ (send_to_tag_named-SameLinks net label pkt now)
          (send_to_name-SameLinks net (c ∷ label) pkt now))

  pub send-SameLinks :
      (net : Network) (targets : List (List ℕ)) (pkt : Packet) (now : ℕ)
      → SameLinks net (send host client_id M net targets pkt now).1
  unfolding send
  send-SameLinks net [] pkt now = SameLinks-refl net
  send-SameLinks net (target ∷ targets) pkt now =
      let net' : Network = (send_one host client_id M net target pkt now).1 in
      SameLinks-trans net net' (send host client_id M net' targets pkt now).1
        (send_one-SameLinks net target pkt now) (send-SameLinks net' targets pkt now)
