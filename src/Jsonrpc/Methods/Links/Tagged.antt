-- ===== src/Jsonrpc/Methods/Links/Tagged.antt =====
-- The same of lgtd_proto_tag and lgtd_proto_untag.
use lightsd.Common.{
  ℕ, ◌≡◌, inl, inr, List, [], ◌∷◌, Bool, true, false, Option, none, some, Option-cases, ◌==◌,
  bit_and, if_both,
}
use lightsd.Wire.PacketType
use lightsd.Wire.PacketTable.{PacketInfoMap}
use lightsd.Wire.Endian.{Host}
use lightsd.Wire.TagIds.{tag_id_to_value}
use lightsd.Gateway.TagIds.{TagState, get_tag_id, allocate_tag_id, deallocate_tag_id}
use lightsd.Tagging.Labels.{Label}
use lightsd.Tagging.{Site, Tags, find_tag, deallocate_tag}
use lightsd.Jsonrpc.Client.{Client}
use lightsd.Router.Devices.{targets_to_devices}
use lightsd.Router.Network.{RoutedBulb, RoutedGateway, Network, bulb_get, gateway_at, set_gateway}
use lightsd.Router.Sending.Links.{send_to_bulb-SameLinks}
use lightsd.Handling.Links.{SameLinks, SameBulbs-refl, SameLinks-refl, SameLinks-trans}
use lightsd.Handling.Links.Handled.{set_gateway-SameGateways}
use lightsd.Handling.Links.Kept.{send_to_site-bulbs}
use lightsd.Handling.Links.Tags.{allocate_tag_id-bulbs, deallocate_tag_id-bulbs}
use lightsd.Jsonrpc.Methods.{next_memory}
use lightsd.Wire.PacketInfo.{label_size}
use lightsd.Wire.Payloads.{encode_tag_labels, tag_labels_bytes}
use lightsd.Gateway.Send.{send_to_site}
use lightsd.Jsonrpc.Methods.Tagged.{
  padded, gateway_of, set_tag_state, allocate_each, deallocate_each, undo_tag, sites_of,
  label_sites, tag_device, untag_device, each_device, int_tag_value, send_tag, with_tag,
  find_or_allocate, proto_tag, proto_untag,
}
use lightsd.Handling.Links.Opened.{gateway_at-itself}
use lightsd.Jsonrpc.Methods.Links.{Keeping, set_tag_state-SameLinks}

gateway_of-itself :
    (net : Network) (addr : List ℕ) (g : RoutedGateway)
    → gateway_of net addr ≡ some g
    → gateway_at net.gateways g.number ≡ some g
gateway_of-itself net addr g h = elim (Option-cases (bulb_get net.bulbs addr)) [
  | inl e ↦ let f : none ≡ some g = rw (e, gateway_of) at h in cc
  | inr (b, e) ↦ gateway_at-itself net.gateways b.gw g (rw (e, gateway_of) at h)
]

allocate_each-SameLinks :
    (tag : ℕ) (label : Label) (devices : List (List ℕ)) (net : Network) (memory : List Bool)
    → SameLinks net (allocate_each tag label devices net memory).1
unfolding allocate_each
allocate_each-SameLinks tag label [] net memory = SameLinks-refl net
allocate_each-SameLinks tag label (addr ∷ devices) net memory =
    elim (Option-cases (gateway_of net addr)) [
      | inl e ↦ rw (e, allocate_each) (allocate_each-SameLinks tag label devices net memory)
      | inr (g, e) ↦ elim (Option-cases (get_tag_id g.gw tag)) [
        | inr (id, k) ↦
            rw (e, k, allocate_each) (allocate_each-SameLinks tag label devices net memory)
        | inl k ↦
            let enough : Bool = (next_memory memory).0 in
            let r : Option ℕ × TagState =
              allocate_tag_id g.number (record { gw = g.gw; store = net.tags }) none label true
                enough in
            let net' : Network = set_tag_state net g.number r.1 in
            let same : SameLinks net net' =
              set_tag_state-SameLinks net g.number g r.1 (gateway_of-itself net addr g e) (
                allocate_tag_id-bulbs g.number (record { gw = g.gw; store = net.tags }) none label
                  true enough) in
            elim (Option-cases r.0) [
              | inl f ↦ rw (e, k, f, allocate_each) same
              | inr (id, f) ↦
                  rw (e, k, f, allocate_each)
                    (SameLinks-trans net net'
                      (allocate_each tag label devices net' (next_memory memory).1).1 same
                      (allocate_each-SameLinks tag label devices net' (next_memory memory).1))
            ]
      ]
    ]

deallocate_each-SameLinks :
    (sites : List Site) (net : Network) → SameLinks net (deallocate_each sites net)
unfolding deallocate_each
deallocate_each-SameLinks [] net = SameLinks-refl net
deallocate_each-SameLinks (site ∷ sites) net =
    elim (Option-cases (gateway_at net.gateways site.gw)) [
      | inl e ↦ rw (e, deallocate_each) (deallocate_each-SameLinks sites net)
      | inr (g, e) ↦
          let s : TagState =
            deallocate_tag_id g.number (record { gw = g.gw; store = net.tags }) site.tag_id in
          let net' : Network = set_tag_state net g.number s in
          rw (e, deallocate_each)
            (SameLinks-trans net net' (deallocate_each sites net')
              (set_tag_state-SameLinks net g.number g s (gateway_at-itself net.gateways site.gw g e)
                (deallocate_tag_id-bulbs g.number (record { gw = g.gw; store = net.tags })
                  site.tag_id))
              (deallocate_each-SameLinks sites net'))
    ]

undo_tag-SameLinks : (tag : ℕ) (net : Network) → SameLinks net (undo_tag tag net)
unfolding undo_tag
undo_tag-SameLinks tag net =
    elim (sites_of net.tags tag)
      as (λ sites. SameLinks net (elim sites [
        | [] ↦ record net { tags = deallocate_tag net.tags tag }
        | site ∷ sites' ↦ deallocate_each (site ∷ sites') net
      ])) [ [] ↦ SameLinks-refl net | site ∷ sites ↦ deallocate_each-SameLinks (site ∷ sites) net ]

module _ (host : Host) (client_id : ℕ) (M : PacketInfoMap) (now : ℕ) where
  label_sites-SameLinks :
      (label : Label) (sites : List Site) (net : Network)
      → SameLinks net (label_sites host client_id M now label sites net)
  unfolding label_sites
  label_sites-SameLinks label [] net = SameLinks-refl net
  label_sites-SameLinks label (site ∷ sites) net =
      elim (Option-cases (gateway_at net.gateways site.gw)) [
        | inl e ↦ rw (e, label_sites) (label_sites-SameLinks label sites net)
        | inr (g, e) ↦
            let gw' = send_to_site host client_id M g.gw PacketType.set_tag_labels (
              some (
                tag_labels_bytes host (
                  encode_tag_labels host (record {
                    tags = tag_id_to_value site.tag_id;
                    label = padded 31 label_size label;
                  })))) in
            let net' : Network = record net { gateways = set_gateway net.gateways site.gw gw' } in
            rw (e, label_sites)
              (SameLinks-trans net net' (label_sites host client_id M now label sites net')
                (
                  SameBulbs-refl net.bulbs,
                  set_gateway-SameGateways net.gateways site.gw gw' g e
                      (send_to_site-bulbs host client_id M g.gw _ _),
                )
                (label_sites-SameLinks label sites net'))
      ]

  abbrev AtDevice : (Network → RoutedBulb → ℕ → Network) → Type 0
  AtDevice f = (net : Network) (b : RoutedBulb) (v : ℕ) → SameLinks net (f net b v)

  tag_device-SameLinks : AtDevice (tag_device host client_id M now)
  tag_device-SameLinks net b v =
      if_both (SameLinks net) (bit_and b.bulb.state.tags v == 0) _ _
        (send_to_bulb-SameLinks host client_id M net b _ now) (SameLinks-refl net)

  untag_device-SameLinks : AtDevice (untag_device host client_id M now)
  untag_device-SameLinks net b v =
      if_both (SameLinks net) (bit_and b.bulb.state.tags v == 0) _ _ (SameLinks-refl net)
        (send_to_bulb-SameLinks host client_id M net b _ now)

  each_device-SameLinks :
      (f : Network → RoutedBulb → ℕ → Network)
      → AtDevice f
      → (tag : ℕ) (devices : List (List ℕ)) (net : Network)
      → SameLinks net (each_device host client_id M now f tag devices net)
  unfolding each_device
  each_device-SameLinks f same tag [] net = SameLinks-refl net
  each_device-SameLinks f same tag (addr ∷ devices) net =
      elim (Option-cases (bulb_get net.bulbs addr)) [
        | inl e ↦ rw (e, each_device) (each_device-SameLinks f same tag devices net)
        | inr (b, e) ↦ elim (Option-cases (gateway_at net.gateways b.gw)) [
          | inl k ↦ rw (e, k, each_device) (each_device-SameLinks f same tag devices net)
          | inr (g, k) ↦ elim (Option-cases (get_tag_id g.gw tag)) [
            | inl h ↦ rw (e, k, h, each_device) (each_device-SameLinks f same tag devices net)
            | inr (id, h) ↦
                let net' : Network = f net b (int_tag_value id) in
                rw (e, k, h, each_device)
                  (SameLinks-trans net net' (each_device host client_id M now f tag devices net')
                    (same net b (int_tag_value id)) (each_device-SameLinks f same tag devices net'))
          ]
        ]
      ]

  send_tag-SameLinks :
      (tag : ℕ) (label : Label) (devices : List (List ℕ)) (client : Client)
      (r : Bool × Network × List Bool)
      → SameLinks r.1 (send_tag host client_id M now tag label devices client r).1.net
  send_tag-SameLinks tag label devices client (false, net, memory) = undo_tag-SameLinks tag net
  send_tag-SameLinks tag label devices client (true, net, memory) =
      let labelled = label_sites host client_id M now label (sites_of net.tags tag) net in
      SameLinks-trans net labelled
        (each_device host client_id M now (tag_device host client_id M now) tag devices labelled)
        (label_sites-SameLinks label (sites_of net.tags tag) net)
        (each_device-SameLinks (tag_device host client_id M now) tag_device-SameLinks tag devices
          labelled)

  with_tag-SameLinks :
      (label : Label) (devices : List (List ℕ)) (client : Client) (net : Network)
      (r : Option (ℕ × Tags) × List Bool)
      → SameLinks net (with_tag host client_id M now label devices client net r).1.net
  with_tag-SameLinks label devices client net (none, memory) = SameLinks-refl net
  with_tag-SameLinks label devices client net (some (tag, tags), memory) =
      let net' : Network = record net { tags = tags } in
      let r = allocate_each tag label devices net' memory in
      let (a, b) = allocate_each-SameLinks tag label devices net' memory in
      SameLinks-trans net r.1 (send_tag host client_id M now tag label devices client r).1.net
        (a, b) (send_tag-SameLinks tag label devices client r)

  pub proto_tag-Keeping : (label : Label) → Keeping (proto_tag host client_id M now label)
  unfolding proto_tag
  proto_tag-Keeping label client daemon ts =
      elim (Option-cases (targets_to_devices daemon.net ts daemon.memory)) [
        | inl e ↦ rw (e, proto_tag) (SameLinks-refl daemon.net)
        | inr ((devices, memory), e) ↦
            rw (e, proto_tag)
              (with_tag-SameLinks label devices client daemon.net
                (find_or_allocate daemon.net.tags label memory))
      ]

  pub proto_untag-Keeping : (label : Label) → Keeping (proto_untag host client_id M now label)
  unfolding proto_untag
  proto_untag-Keeping label client daemon ts =
      elim (Option-cases (find_tag daemon.net.tags label)) [
        | inl e ↦ rw (e, proto_untag) (SameLinks-refl daemon.net)
        | inr (tag, e) ↦ elim (Option-cases (targets_to_devices daemon.net ts daemon.memory)) [
          | inl k ↦ rw (e, k, proto_untag) (SameLinks-refl daemon.net)
          | inr ((devices, memory), k) ↦
              rw (e, k, proto_untag)
                (each_device-SameLinks (untag_device host client_id M now) untag_device-SameLinks
                  tag.number devices daemon.net)
        ]
      ]
