-- ===== src/Handling/Packets.antt =====
-- lgtd_lifx_gateway_handle_packet of lifx/gateway.c: a packet that lgtd_lifx_wire_handle_receive hands over,
-- with the opening of a gateway, from its peer. The calls that lgtd_lifx_gateway_open makes succeed or it
-- opens nothing.
use lightsd.Common.{
  ℕ, ◌+◌, List, [], ◌∷◌, Bool, true, false, Option, none, some, take, ◌==◌, if◌then◌else◌,
}
use lightsd.Common.Bytes.{same_bytes}
use lightsd.Wire.PacketType
use lightsd.Wire.PacketInfo.{Handler}
use lightsd.Wire.PacketTable.{PacketInfoMap}
use lightsd.Wire.Endian.{Host, memory}
use lightsd.Wire.Header.{Header}
use lightsd.Wire.Receive.{Delivery}
use lightsd.Gateway.State.{opened}
use lightsd.Router.Network.{RoutedGateway, before_zero}
use lightsd.Discovery.Watchdog.{World}
use lightsd.Handling.{on_gateway}
use lightsd.Handling.Payload.{Payload, decode_payload}
use lightsd.Handling.Setters.{
  handle_ip_state, handle_ip_firmware_info, handle_product_info, handle_runtime_info,
  handle_ambient_light, handle_tag_labels_at, handle_power_state_at, handle_tags_at,
  handle_bulb_label_at, handle_light_status_at,
}

-- What the system gives while a packet is handled: the address of a new gateway, whether
-- lgtd_lifx_gateway_open succeeds, whether a new bulb gets memory, the memory for tags, and the time.
pub record System : Type 0 where
  pub number : ℕ
  pub opens : Bool
  pub bulb_memory : Bool
  pub tag_memory : ℕ → Bool × Bool
  pub now : ℕ

-- lgtd_lifx_gateway_get
unfoldable pub gateway_get : List RoutedGateway → List ℕ → Option ℕ
gateway_get [] peer = none
gateway_get (g ∷ gateways) peer =
    if same_bytes g.peer peer then some g.number else gateway_get gateways peer

-- lgtd_lifx_gateway_open
unfoldable pub gateway_open : ℕ → List ℕ → List ℕ → ℕ → World → World
gateway_open number peer site received_at w = record {
  net = record (w.net) {
    gateways =
        record { number = number; peer = peer; gw = opened site received_at } ∷ w.net.gateways;
  };
  stats = record (w.stats) { gateways = w.stats.gateways + 1 };
}

-- The gateway that a packet is for, which is opened if it is new and the packet is a PAN_GATEWAY.
unfoldable pub get_or_open_gateway : System → List ℕ → Header → ℕ → World → Option ℕ × World
get_or_open_gateway system peer hdr received_at w = elim (gateway_get w.net.gateways peer) [
  | some number ↦ (some number, w)
  | none ↦
      if hdr.packet_type == PacketType.pan_gateway
      then (if system.opens
          then (some system.number, gateway_open system.number peer hdr.site received_at w)
          else (none, w))
      else (none, w)
]

module _ (host : Host) (client_id : ℕ) (M : PacketInfoMap) (system : System) where
  -- `pkt_info->handle`
  unfoldable pub handle : ℕ → List ℕ → ℕ → Payload → World → World
  handle me addr packet_type Payload.ignored w = w
  handle me addr packet_type (Payload.light_status pkt) w =
      handle_light_status_at host client_id M me addr system.now system.bulb_memory pkt w
  handle me addr packet_type (Payload.power_state power) w =
      handle_power_state_at host client_id M me addr system.now system.bulb_memory power w
  handle me addr packet_type (Payload.tag_labels pkt) w =
      handle_tag_labels_at me pkt.tags (before_zero pkt.label) system.tag_memory w
  handle me addr packet_type (Payload.tags tags) w =
      handle_tags_at host client_id M me addr system.now system.bulb_memory tags w
  handle me addr packet_type (Payload.ip_state pkt) w =
      handle_ip_state me addr system.now system.bulb_memory packet_type pkt w
  handle me addr packet_type (Payload.ip_firmware_info pkt) w =
      handle_ip_firmware_info me addr system.now system.bulb_memory packet_type pkt w
  handle me addr packet_type (Payload.product_info pkt) w =
      handle_product_info me addr system.now system.bulb_memory pkt w
  handle me addr packet_type (Payload.runtime_info pkt) w =
      handle_runtime_info me addr system.now system.bulb_memory pkt w
  handle me addr packet_type (Payload.bulb_label label) w =
      handle_bulb_label_at host client_id M me addr system.now system.bulb_memory label w
  handle me addr packet_type (Payload.ambient_light illuminance) w =
      handle_ambient_light me addr system.now system.bulb_memory illuminance w

  -- The time of the last packet is only set when the packet's type is implemented.
  abbrev pub is_enosys : Handler → Bool
  is_enosys Handler.enosys_packet_handler = true
  is_enosys _ = false

  abbrev pub note_packet : Handler → ℕ → ℕ → World → World
  note_packet handler received_at me w =
      if is_enosys handler
      then w
      else on_gateway (λ gw. record gw { last_pkt_at = received_at }) me w

  -- The address of the device in the target of a header, as the host has it in memory.
  abbrev pub device_addr : Header → List ℕ
  device_addr hdr = take 6 (memory host 8 hdr.target)

  abbrev pub handle_delivery : Delivery → ℕ → Option ℕ × World → World
  handle_delivery d received_at (none, w) = w
  handle_delivery d received_at (some me, w) =
      handle me (device_addr d.hdr) d.hdr.packet_type (decode_payload host d.info.handle d.pkt)
        (note_packet d.info.handle received_at me w)

  -- lgtd_lifx_gateway_handle_packet: a packet came to the socket of a gateway, or, with NULL for the gateway,
  -- to that of broadcasts.
  unfoldable pub handle_packet : Option ℕ → List ℕ → Delivery → ℕ → World → World
  handle_packet (some me) peer d received_at w = handle_delivery d received_at (some me, w)
  handle_packet none peer d received_at w =
      handle_delivery d received_at (get_or_open_gateway system peer d.hdr received_at w)
