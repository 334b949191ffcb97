-- ===== src/Jsonrpc/Methods/Tagged.antt =====
-- lgtd_proto_tag and lgtd_proto_untag of core/proto.c. A label of 32 bytes or more is an assertion of
-- lgtd_lifx_tagging_allocate_tag; a gateway that has no id for the tag is one too in the last loop of
-- lgtd_proto_tag, which sends nothing then.
use lightsd.Common.{
  ℕ, ◌-◌, List, [], ◌∷◌, ◌++◌, Bool, true, false, Option, none, some, take, length, replicate,
  bit_and, bit_or, ◌==◌, if◌then◌else◌, ◌^◌,
}
use lightsd.Common.Bytes.{codes}
use lightsd.Common.Int.{pos, to_int, wrapped}
use lightsd.Wire.PacketType
use lightsd.Wire.PacketTable.{PacketInfoMap}
use lightsd.Wire.PacketInfo.{label_size}
use lightsd.Wire.TagIds.{u64_mod, tag_id_to_value}
use lightsd.Wire.Endian.{Host}
use lightsd.Wire.Payloads.{encode_tag_labels, tag_labels_bytes}
use lightsd.Tagging.Labels.{Label}
use lightsd.Tagging.{Site, Tags, find_tag, allocate_tag, deallocate_tag, tag_at}
use lightsd.Gateway.Send.{tags_packet, send_to_site}
use lightsd.Gateway.TagIds.{TagState, get_tag_id, allocate_tag_id, deallocate_tag_id}
use lightsd.Router.Network.{RoutedBulb, RoutedGateway, Network, bulb_get, gateway_at, set_gateway}
use lightsd.Router.Devices.{targets_to_devices}
use lightsd.Router.Sending.{Packet, send_to_bulb}
use lightsd.Jsonrpc.Client.{Client, ErrorCode, send_error}
use lightsd.Jsonrpc.Methods.{Daemon, next_memory, send_result}

-- A field of `size` bytes that begins with at most `n` of a label and ends with zeros.
abbrev pub padded : ℕ → ℕ → Label → List ℕ
padded n size label = take n label ++ replicate (size - length (take n label)) 0

-- The value of a tag id in an int, as it is widened to 64 bits again.
abbrev pub int_tag_value : ℕ → ℕ
int_tag_value id = wrapped (2 ^ 64) (to_int (pos (tag_id_to_value id)))

abbrev pub gateway_of : Network → List ℕ → Option RoutedGateway
gateway_of net addr = elim (bulb_get net.bulbs addr) [
  | none ↦ none
  | some b ↦ gateway_at net.gateways b.gw
]

-- A gateway as it is changed together with the tags.
abbrev pub set_tag_state : Network → ℕ → TagState → Network
set_tag_state net number s = record net {
  gateways = set_gateway net.gateways number s.gw;
  tags = s.store;
}

-- The loop of lgtd_proto_tag that allocates a tag id on the gateway of each device; `false` when one fails.
unfoldable pub allocate_each :
    ℕ → Label → List (List ℕ) → Network → List Bool → Bool × Network × List Bool
allocate_each tag label [] net memory = (true, net, memory)
allocate_each tag label (addr ∷ devices) net memory = elim (gateway_of net addr) [
  | none ↦ allocate_each tag label devices net memory
  | some g ↦ elim (get_tag_id g.gw tag) [
    | some id ↦ allocate_each tag label devices net memory
    | none ↦
        let (enough, memory') = next_memory memory in
        let (id, s) =
          allocate_tag_id g.number (record { gw = g.gw; store = net.tags }) none label true
            enough in
        elim id [
          | none ↦ (false, set_tag_state net g.number s, memory')
          | some id' ↦ allocate_each tag label devices (set_tag_state net g.number s) memory'
        ]
  ]
]

abbrev pub sites_of : Tags → ℕ → List Site
sites_of tags tag = elim (tag_at tags.list tag) [ none ↦ [] | some t ↦ t.sites ]

-- The loop over the sites of a tag whose allocation failed.
unfoldable pub deallocate_each : List Site → Network → Network
deallocate_each [] net = net
deallocate_each (site ∷ sites) net = elim (gateway_at net.gateways site.gw) [
  | none ↦ deallocate_each sites net
  | some g ↦ deallocate_each sites (
      set_tag_state net g.number
        (deallocate_tag_id g.number (record { gw = g.gw; store = net.tags }) site.tag_id))
]

-- What follows error_site_alloc.
unfoldable pub undo_tag : ℕ → Network → Network
undo_tag tag net = elim (sites_of net.tags tag) [
  | [] ↦ record net { tags = deallocate_tag net.tags tag }
  | site ∷ sites ↦ deallocate_each (site ∷ sites) net
]

abbrev pub no_new_tag : Client → Client
no_new_tag client = send_error client ErrorCode.internal_error (codes "couldn't allocate new tag")

-- The tag with a label, or a new one.
abbrev pub find_or_allocate : Tags → Label → List Bool → Option (ℕ × Tags) × List Bool
find_or_allocate tags label memory = elim (find_tag tags label) [
  | some tag ↦ (some (tag.number, tags), memory)
  | none ↦
      let (enough, memory') = next_memory memory in
      elim (allocate_tag tags label enough) [
        | none ↦ (none, memory')
        | some (tag, tags') ↦ (some (tag.number, tags'), memory')
      ]
]

module _ (host : Host) (client_id : ℕ) (M : PacketInfoMap) (now : ℕ) where
  -- The loop of lgtd_proto_tag that sends SET_TAG_LABELS to the sites.
  unfoldable pub label_sites : Label → List Site → Network → Network
  label_sites label [] net = net
  label_sites label (site ∷ sites) net = elim (gateway_at net.gateways site.gw) [
    | none ↦ label_sites label sites net
    | some g ↦
        let pkt =
          encode_tag_labels host
            (record { tags = tag_id_to_value site.tag_id; label = padded 31 label_size label }) in
        label_sites label sites (record net {
          gateways = set_gateway net.gateways site.gw (
              send_to_site host client_id M g.gw PacketType.set_tag_labels
                (some (tag_labels_bytes host pkt)));
        })
  ]

  abbrev pub send_tags : Network → RoutedBulb → ℕ → Network
  send_tags net b tags =
      send_to_bulb host client_id M net b
        (Packet.packet PacketType.set_tags (some (tags_packet host tags))) now

  -- What both lgtd_proto_tag and lgtd_proto_untag do at a device whose gateway has an id for the tag.
  abbrev pub tag_device : Network → RoutedBulb → ℕ → Network
  tag_device net b value =
      if bit_and b.bulb.state.tags value == 0
      then send_tags net b (bit_or b.bulb.state.tags value)
      else net

  abbrev pub untag_device : Network → RoutedBulb → ℕ → Network
  untag_device net b value =
      if bit_and b.bulb.state.tags value == 0
      then net
      else send_tags net b (bit_and b.bulb.state.tags (u64_mod - 1 - value))

  -- The loops over the devices, with what is done at one.
  unfoldable pub each_device :
      (Network → RoutedBulb → ℕ → Network) → ℕ → List (List ℕ) → Network → Network
  each_device at_device tag [] net = net
  each_device at_device tag (addr ∷ devices) net = elim (bulb_get net.bulbs addr) [
    | none ↦ each_device at_device tag devices net
    | some b ↦ elim (gateway_at net.gateways b.gw) [
      | none ↦ each_device at_device tag devices net
      | some g ↦ elim (get_tag_id g.gw tag) [
        | none ↦ each_device at_device tag devices net
        | some id ↦ each_device at_device tag devices (at_device net b (int_tag_value id))
      ]
    ]
  ]

  -- What follows the loop that allocates.
  abbrev pub send_tag :
      ℕ → Label → List (List ℕ) → Client → Bool × Network × List Bool → Client × Daemon
  send_tag tag label devices client (false, net, memory) =
      (no_new_tag client, record { net = undo_tag tag net; memory = memory })
  send_tag tag label devices client (true, net, memory) =
      let labelled = label_sites label (sites_of net.tags tag) net in
      (
        send_result client true,
        record { net = each_device tag_device tag devices labelled; memory = memory },
      )

  -- What follows the search of the tag.
  abbrev pub with_tag :
      Label → List (List ℕ) → Client → Network → Option (ℕ × Tags) × List Bool → Client × Daemon
  with_tag label devices client net (none, memory) =
      (no_new_tag client, record { net = net; memory = memory })
  with_tag label devices client net (some (tag, tags), memory) =
      send_tag tag label devices client
        (allocate_each tag label devices (record net { tags = tags }) memory)

  -- lgtd_proto_tag
  unfoldable pub proto_tag : Label → Client → Daemon → List (List ℕ) → Client × Daemon
  proto_tag label client daemon targets =
      elim (targets_to_devices daemon.net targets daemon.memory) [
        | none ↦ (no_new_tag client, daemon)
        | some (devices, memory) ↦
            with_tag label devices client daemon.net (find_or_allocate daemon.net.tags label memory)
      ]

  -- lgtd_proto_untag
  unfoldable pub proto_untag : Label → Client → Daemon → List (List ℕ) → Client × Daemon
  proto_untag label client daemon targets = elim (find_tag daemon.net.tags label) [
    | none ↦ (send_result client true, daemon)
    | some tag ↦ elim (targets_to_devices daemon.net targets daemon.memory) [
      | none ↦
          (send_error client ErrorCode.internal_error (codes "couldn't allocate memory"), daemon)
      | some (devices, memory) ↦ (
        send_result client true,
        record { net = each_device untag_device tag.number devices daemon.net; memory = memory },
      )
    ]
  ]
