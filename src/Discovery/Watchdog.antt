-- ===== src/Discovery/Watchdog.antt =====
-- The watchdog of lifx/discovery.c, with lgtd_lifx_gateway_close and
-- lgtd_lifx_gateway_remove_and_close_bulb of lifx/gateway.c and lgtd_lifx_bulb_close of lifx/bulb.c. The
-- objects of libevent have no place here; the socket of a gateway is open.
pub mod Removal
pub mod Forgetting
pub mod Closing
pub mod Unlisted
pub mod Linked
pub mod Keeping
pub mod Recent
use lightsd.Common.{
  ℕ, ◌+◌, ◌-◌, ◌%◌, ◌^◌, List, [], ◌∷◌, ◌++◌, Bool, true, false, ◌&&◌, ◌||◌, Option, none, some,
  leb, ltb, ◌==◌, if◌then◌else◌,
}
use lightsd.Common.Bytes.{same_bytes}
use lightsd.Gateway.State.{Gateway}
use lightsd.Gateway.Refcounts.{remove_bulb_tags}
use lightsd.Gateway.Bulbs.{Bulb, power_on}
use lightsd.Tagging.{Tags, decref}
use lightsd.Router.Network.{RoutedBulb, RoutedGateway, Network, bulb_get}

abbrev pub device_timeout_msecs : ℕ
device_timeout_msecs = 20000

abbrev pub device_force_refresh_msecs : ℕ
device_force_refresh_msecs = 2000

-- struct lgtd_stats
pub record Stats : Type 0 where
  pub gateways : ℕ
  pub bulbs : ℕ
  pub bulbs_powered_on : ℕ

pub record World : Type 0 where
  pub net : Network
  pub stats : Stats

-- A difference of times, cut to an int, that is at least a limit. The clock does not go back.
abbrev pub lags : ℕ → ℕ → Bool
lags lag limit = ltb (lag % 2 ^ 32) (2 ^ 31) && leb limit (lag % 2 ^ 32)

-- RB_REMOVE
unfoldable pub remove_bulb : List RoutedBulb → List ℕ → List RoutedBulb
remove_bulb [] addr = []
remove_bulb (b ∷ bulbs) addr =
    let rest = remove_bulb bulbs addr in if same_bytes b.bulb.addr addr then bulbs else b ∷ rest

-- SLIST_REMOVE
unfoldable pub remove_addr : List (List ℕ) → List ℕ → List (List ℕ)
remove_addr [] addr = []
remove_addr (a ∷ addrs) addr =
    let rest = remove_addr addrs addr in if same_bytes a addr then addrs else a ∷ rest

-- LIST_REMOVE
unfoldable pub remove_gateway : List RoutedGateway → ℕ → List RoutedGateway
remove_gateway [] number = []
remove_gateway (g ∷ gateways) number =
    let rest = remove_gateway gateways number in if g.number == number then gateways else g ∷ rest

-- lgtd_lifx_bulb_close
unfoldable pub bulb_close : World → Bulb → World
bulb_close w bulb = record {
  net = record (w.net) { bulbs = remove_bulb w.net.bulbs bulb.addr };
  stats = record (w.stats) {
    bulbs = w.stats.bulbs - 1;
    bulbs_powered_on =
        if bulb.state.power == power_on
        then w.stats.bulbs_powered_on - 1
        else w.stats.bulbs_powered_on;
  };
}

-- What lgtd_lifx_gateway_remove_and_close_bulb does to the gateway.
abbrev pub forget_bulb : Bulb → Gateway → Gateway
forget_bulb bulb gw = record (remove_bulb_tags gw bulb.state.tags) {
  bulbs = remove_addr gw.bulbs bulb.addr;
}

unfoldable pub forget_bulb_at : List RoutedGateway → ℕ → Bulb → List RoutedGateway
forget_bulb_at [] number bulb = []
forget_bulb_at (g ∷ gateways) number bulb =
    let rest = forget_bulb_at gateways number bulb in
    if g.number == number then record g { gw = forget_bulb bulb g.gw } ∷ gateways else g ∷ rest

-- lgtd_lifx_gateway_remove_and_close_bulb
unfoldable pub remove_and_close_bulb : World → RoutedBulb → World
remove_and_close_bulb w b =
    bulb_close
      (record w { net = record (w.net) { gateways = forget_bulb_at w.net.gateways b.gw b.bulb } })
      b.bulb

-- The loop of lgtd_lifx_gateway_close over the tags.
unfoldable pub decref_each : Tags → List (Option ℕ) → ℕ → Tags
decref_each tags [] gw = tags
decref_each tags (none ∷ pointers) gw = decref_each tags pointers gw
decref_each tags (some tag ∷ pointers) gw = decref_each (decref tags tag gw) pointers gw

-- Its loop over the bulbs.
unfoldable pub close_each : World → List (List ℕ) → World
close_each w [] = w
close_each w (addr ∷ addrs) = elim (bulb_get w.net.bulbs addr) [
  | none ↦ close_each w addrs
  | some b ↦ close_each (remove_and_close_bulb w b) addrs
]

-- lgtd_lifx_gateway_close
unfoldable pub gateway_close : World → RoutedGateway → World
gateway_close w g =
    close_each
      (record {
        net = record (w.net) {
          gateways = remove_gateway w.net.gateways g.number;
          tags = decref_each w.net.tags g.gw.tags g.number;
        };
        stats = record (w.stats) { gateways = w.stats.gateways - 1 };
      })
      g.gw.bulbs

abbrev pub bulb_lags : ℕ → RoutedBulb → Bool
bulb_lags now b = lags ((now + 2 ^ 64 - b.bulb.last_light_state_at) % 2 ^ 64) device_timeout_msecs

abbrev pub gateway_lags : ℕ → ℕ → RoutedGateway → Bool
gateway_lags now limit g = lags ((now + 2 ^ 64 - g.gw.last_pkt_at) % 2 ^ 64) limit

-- The loop of the watchdog over the bulbs, and whether it closes one.
unfoldable pub close_bulbs : ℕ → World → List RoutedBulb → World × Bool
close_bulbs now w [] = (w, false)
close_bulbs now w (b ∷ bulbs) = elim (bulb_lags now b) [
  | true ↦ ((close_bulbs now (remove_and_close_bulb w b) bulbs).0, true)
  | false ↦ close_bulbs now w bulbs
]

-- Its loop over the gateways, whether it closes one, and those whose refresh timer it activates.
unfoldable pub close_gateways : ℕ → World → List RoutedGateway → World × Bool × List ℕ
close_gateways now w [] = (w, false, [])
close_gateways now w (g ∷ gateways) = elim (gateway_lags now device_timeout_msecs g) [
  | true ↦ let rest = close_gateways now (gateway_close w g) gateways in (rest.0, true, rest.2)
  | false ↦
      let rest = close_gateways now w gateways in
      if gateway_lags now device_force_refresh_msecs g
      then (rest.0, rest.1, g.number ∷ rest.2)
      else rest
]

-- lgtd_lifx_discovery_watchdog_interval_callback: the world that it leaves, whether it starts a discovery,
-- and the gateways that are refreshed.
unfoldable pub watchdog_interval : ℕ → World → World × Bool × List ℕ
watchdog_interval now w =
    let bulbs = close_bulbs now w w.net.bulbs in
    let gateways = close_gateways now bulbs.0 bulbs.0.net.gateways in
    (gateways.0, bulbs.1 || gateways.1, gateways.2)
