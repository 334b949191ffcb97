-- ===== src/Handling/Setters.antt =====
-- The handlers of lifx/gateway.c for the packets that tell something about a bulb or about tag ids. `at` is
-- the time of the gateway's last packet.
use lightsd.Common.{ℕ, List, Bool, Option, none, some, ◌==◌, if◌then◌else◌}
use lightsd.Wire.PacketType
use lightsd.Wire.PacketTable.{PacketInfoMap}
use lightsd.Wire.Endian.{Host}
use lightsd.Tagging.Labels.{Label}
use lightsd.Gateway.Hardware.{
  Hardware, BulbIps, IpState, IpFirmwareInfo, ProductInfo, RuntimeInfo, set_ip_state,
  set_ip_firmware_info, set_product_info, set_runtime_info, set_ambient_light,
}
use lightsd.Gateway.TagIds.{TagState, handle_tag_labels}
use lightsd.Gateway.Bulbs.{
  BulbState, LightState, set_light_state, set_power_state, set_tags, set_label, settle_power,
  refresh,
}
use lightsd.Router.Network.{gateway_at, set_gateway}
use lightsd.Discovery.Watchdog.{World}
use lightsd.Handling.{on_gateway, get_or_open_bulb, on_bulb, with_bulb, last_pkt_at_of}

abbrev pub on_hardware : (Hardware → Hardware) → BulbState → BulbState
on_hardware f s = record s { bulb = record (s.bulb) { hardware = f s.bulb.hardware } }

-- The switch of lgtd_lifx_gateway_handle_ip_state.
abbrev pub state_ip : ℕ → Option BulbIps
state_ip packet_type =
    if packet_type == PacketType.mesh_info
    then some BulbIps.mcu_ip
    else if packet_type == PacketType.wifi_info
    then some BulbIps.wifi_ip
    else none

-- The switch of lgtd_lifx_gateway_handle_ip_firmware_info.
abbrev pub firmware_ip : ℕ → Option BulbIps
firmware_ip packet_type =
    if packet_type == PacketType.mesh_firmware
    then some BulbIps.mcu_ip
    else if packet_type == PacketType.wifi_firmware_state
    then some BulbIps.wifi_ip
    else none

-- The gateway of a packet, the device that it is about, the time, and whether a new bulb gets memory.
module _ (me : ℕ) (addr : List ℕ) (now : ℕ) (memory : Bool) where
  -- LGTD_LIFX_GATEWAY_SET_BULB_ATTR, with the time of the gateway's last packet.
  unfoldable pub set_bulb_attr : (ℕ → BulbState → BulbState) → World → World
  set_bulb_attr bulb_fn w =
      with_bulb (λ w'. on_bulb (bulb_fn (last_pkt_at_of w' me)) addr w')
        (get_or_open_bulb me addr now memory w)

  abbrev pub handle_ip_state : ℕ → IpState → World → World
  handle_ip_state packet_type pkt w = elim (state_ip packet_type) [
    | none ↦ w
    | some ip_id ↦ set_bulb_attr (λ at. on_hardware (set_ip_state ip_id pkt at)) w
  ]

  abbrev pub handle_ip_firmware_info : ℕ → IpFirmwareInfo → World → World
  handle_ip_firmware_info packet_type pkt w = elim (firmware_ip packet_type) [
    | none ↦ w
    | some ip_id ↦ set_bulb_attr (λ at. on_hardware (set_ip_firmware_info ip_id pkt at)) w
  ]

  abbrev pub handle_product_info : ProductInfo → World → World
  handle_product_info pkt = set_bulb_attr (λ at. on_hardware (set_product_info pkt))

  abbrev pub handle_runtime_info : RuntimeInfo → World → World
  handle_runtime_info pkt = set_bulb_attr (λ at. on_hardware (set_runtime_info pkt at))

  abbrev pub handle_ambient_light : ℕ → World → World
  handle_ambient_light illuminance =
      set_bulb_attr (λ at. on_hardware (set_ambient_light illuminance))

-- lgtd_lifx_gateway_handle_tag_labels; the memory is given for each tag id.
unfoldable pub handle_tag_labels_at : ℕ → ℕ → Label → (ℕ → Bool × Bool) → World → World
handle_tag_labels_at me pkt_tags label memory w = elim (gateway_at w.net.gateways me) [
  | none ↦ w
  | some g ↦
      let s : TagState =
        handle_tag_labels me (record { gw = g.gw; store = w.net.tags }) pkt_tags label memory in
      record w {
        net = record (w.net) { gateways = set_gateway w.net.gateways me s.gw; tags = s.store };
      }
]

module _ (host : Host) (client_id : ℕ) (M : PacketInfoMap) where
  module _ (me : ℕ) (addr : List ℕ) (now : ℕ) (memory : Bool) where
    abbrev pub handle_power_state_at : ℕ → World → World
    handle_power_state_at power =
        set_bulb_attr me addr now memory (λ at s. set_power_state host client_id M s power)

    -- lgtd_lifx_gateway_handle_tags; the loop only logs.
    abbrev pub handle_tags_at : ℕ → World → World
    handle_tags_at tags =
        set_bulb_attr me addr now memory (λ at s. set_tags host client_id M s tags)

    abbrev pub handle_bulb_label_at : List ℕ → World → World
    handle_bulb_label_at label =
        set_bulb_attr me addr now memory (λ at s. set_label host client_id M s label)

    -- lgtd_lifx_gateway_handle_light_status: the bulb is on its own gateway, the refresh on the packet's.
    unfoldable pub handle_light_status_at : LightState → World → World
    handle_light_status_at pkt w =
        with_bulb
          (λ w'. on_gateway (refresh host client_id M) me (
            on_bulb
              (λ s.
                settle_power host client_id M
                  (set_light_state host client_id M s pkt (last_pkt_at_of w' me)) now)
              addr w'))
          (get_or_open_bulb me addr now memory w)
