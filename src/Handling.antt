-- ===== src/Handling.antt =====
-- The handlers of lifx/gateway.c over the table of bulbs and the list of gateways, with lgtd_lifx_bulb_open
-- of lifx/bulb.c. `me` is the number of the gateway that a packet came from; the gateway of a bulb may be
-- another one. The Booleans say whether there is memory; `now` is the time in milliseconds. The timer that
-- fetches the hardware of a new bulb, and what the handlers log, have no place here.
pub mod Setters
pub mod Payload
pub mod Packets
pub mod Links
pub mod Lifetime
use lightsd.Common.{
  ℕ, ◌+◌, List, [], ◌∷◌, Bool, true, false, Option, none, some, ltb, ◌==◌, if◌then◌else◌, replicate,
}
use lightsd.Common.Bytes.{same_bytes}
use lightsd.Wire.PacketType
use lightsd.Wire.PacketTable.{PacketInfoMap}
use lightsd.Wire.Endian.{Host}
use lightsd.Tagging.Labels.{Label}
use lightsd.Gateway.State.{Gateway}
use lightsd.Gateway.Hardware.{
  Hardware, no_hardware, BulbIps, IpState, IpFirmwareInfo, ProductInfo, RuntimeInfo, set_ip_state,
  set_ip_firmware_info, set_product_info, set_runtime_info, set_ambient_light,
}
use lightsd.Gateway.TagIds.{TagState, handle_tag_labels}
use lightsd.Gateway.Bulbs.{
  Bulb, BulbState, LightState, set_light_state, set_power_state, set_tags, set_label, settle_power,
  refresh,
}
use lightsd.Router.Network.{RoutedBulb, RoutedGateway, Network, bulb_get, gateway_at, set_gateway}
use lightsd.Discovery.Watchdog.{Stats, World}

-- memcmp of two addresses: is the first one less?
unfoldable pub less_bytes : List ℕ → List ℕ → Bool
less_bytes [] bs = false
less_bytes (a ∷ as') [] = false
less_bytes (a ∷ as') (b ∷ bs) =
    let rest = less_bytes as' bs in if ltb a b then true else if a == b then rest else false

-- RB_INSERT
unfoldable pub insert_bulb : RoutedBulb → List RoutedBulb → List RoutedBulb
insert_bulb new [] = new ∷ []
insert_bulb new (b ∷ bulbs) =
    let rest = insert_bulb new bulbs in
    if less_bytes new.bulb.addr b.bulb.addr then new ∷ b ∷ bulbs else b ∷ rest

-- A write to a bulb of the table.
unfoldable pub set_bulb : List RoutedBulb → List ℕ → Bulb → List RoutedBulb
set_bulb [] addr bulb = []
set_bulb (b ∷ bulbs) addr bulb =
    let rest = set_bulb bulbs addr bulb in
    if same_bytes b.bulb.addr addr then record b { bulb = bulb } ∷ bulbs else b ∷ rest

-- What calloc and lgtd_lifx_bulb_open leave in a new bulb.
abbrev pub new_bulb : List ℕ → ℕ → Bulb
new_bulb addr now = record {
  addr = addr;
  last_light_state_at = now;
  dirty_at = 0;
  expected_power_on = 0;
  state = record {
    hue = 0;
    saturation = 0;
    brightness = 0;
    kelvin = 0;
    dim = 0;
    power = 0;
    label = replicate 32 0;
    tags = 0;
  };
  hardware = no_hardware;
}

-- What is done to a gateway.
unfoldable pub on_gateway : (Gateway → Gateway) → ℕ → World → World
on_gateway f me w = elim (gateway_at w.net.gateways me) [
  | none ↦ w
  | some g ↦ record w { net = record (w.net) { gateways = set_gateway w.net.gateways me (f g.gw) } }
]

-- lgtd_lifx_bulb_open
abbrev pub bulb_open : ℕ → List ℕ → ℕ → World → World
bulb_open me addr now w = record {
  net = record (w.net) {
    bulbs = insert_bulb (record { bulb = new_bulb addr now; gw = me }) w.net.bulbs;
  };
  stats = record (w.stats) { bulbs = w.stats.bulbs + 1 };
}

-- SLIST_INSERT_HEAD
abbrev pub list_bulb : List ℕ → Gateway → Gateway
list_bulb addr gw = record gw { bulbs = addr ∷ gw.bulbs }

-- lgtd_lifx_gateway_get_or_open_bulb; `false` is NULL.
unfoldable pub get_or_open_bulb : ℕ → List ℕ → ℕ → Bool → World → Bool × World
get_or_open_bulb me addr now memory w = elim (bulb_get w.net.bulbs addr) [
  | some b ↦ (true, w)
  | none ↦
      if memory
      then (true, on_gateway (list_bulb addr) me (bulb_open me addr now w))
      else (false, w)
]

-- What a setter does to a bulb, its gateway and the counter of the bulbs that are on.
abbrev pub put : World → RoutedBulb → BulbState → World
put w b s = record {
  net = record (w.net) {
    bulbs = set_bulb w.net.bulbs b.bulb.addr s.bulb;
    gateways = set_gateway w.net.gateways b.gw s.gw;
  };
  stats = record (w.stats) { bulbs_powered_on = s.bulbs_powered_on };
}

unfoldable pub on_bulb : (BulbState → BulbState) → List ℕ → World → World
on_bulb f addr w = elim (bulb_get w.net.bulbs addr) [
  | none ↦ w
  | some b ↦ elim (gateway_at w.net.gateways b.gw) [
    | none ↦ w
    | some g ↦
        put w b
          (f (record { bulb = b.bulb; gw = g.gw; bulbs_powered_on = w.stats.bulbs_powered_on }))
  ]
]

-- LGTD_LIFX_GATEWAY_GET_BULB_OR_RETURN, and what follows it.
abbrev pub with_bulb : (World → World) → Bool × World → World
with_bulb k (false, w) = w
with_bulb k (true, w) = k w

abbrev pub last_pkt_at_of : World → ℕ → ℕ
last_pkt_at_of w me = elim (gateway_at w.net.gateways me) [ none ↦ 0 | some g ↦ g.gw.last_pkt_at ]
