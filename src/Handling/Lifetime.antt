-- ===== src/Handling/Lifetime.antt =====
-- The daemon from its start: packets come in, the watchdog and the timers of the gateways run, sockets are
-- ready to write, and clients call methods, in any order.
use mathlib.Core.Path.{subst}
use lightsd.Common.{ℕ, ◌≡◌, refl, sym, ap, ◌∙◌, List, [], Any, Bool, Option, none, some}
use lightsd.Wire.PacketTable.{PacketInfoMap}
use lightsd.Wire.Endian.{Host}
use lightsd.Wire.Receive.{Delivery}
use lightsd.Gateway.State.{Gateway}
use lightsd.Gateway.Queue.{WriteResult, after_write, write_ready}
use lightsd.Gateway.Send.{refresh_callback}
use lightsd.Jsonrpc.Client.{Client}
use lightsd.Jsonrpc.Dispatch.{MethodHandler}
use lightsd.Jsonrpc.Methods.{Daemon}
use lightsd.Jsonrpc.Methods.Links.Methods.{changing_methods, changing_methods-KeepsDaemon}
use lightsd.Router.Network.{RoutedBulb, RoutedGateway, Network, bulb_get, gateway_at}
use lightsd.Discovery.Watchdog.{World, gateway_close, watchdog_interval}
use lightsd.Discovery.Watchdog.Unlisted.{gateway_close-Linked}
use lightsd.Discovery.Watchdog.Keeping.{watchdog_interval-Linked}
use lightsd.Handling.{on_gateway}
use lightsd.Handling.Packets.{System, handle_packet}
use lightsd.Handling.Links.{
  gw_of, bulbs_at, DistinctNumbers, Linked, SameBulbs-refl, SameLinks-Linked,
}
use lightsd.Router.Devices.Insert.{Distinct}
use lightsd.Handling.Links.Handled.{set_gateway-SameGateways}
use lightsd.Handling.Links.Opened.{bulbs_at-gateway_at, gateway_at-itself}
use lightsd.Handling.Links.Kept.{refresh_callback-bulbs}
use lightsd.Handling.Links.Received.{on_gateway-Linked}
use lightsd.Handling.Links.Gateways.{GivenLive, handle_packet-Linked}

-- What the socket's callback does when the socket is ready to write.
abbrev pub on_write : World → RoutedGateway → Option Gateway → World
on_write w g none = gateway_close w g
on_write w g (some gw) = on_gateway (λ old. gw) g.number w

-- What a method makes of the network.
abbrev pub called : MethodHandler Daemon → Client → List Bool → World → World
called method client memory w = record w {
  net = (method client (record { net = w.net; memory = memory })).1.net;
}

-- Writes to the queue of a gateway.
on_write-Linked :
    (w : World) (g : RoutedGateway) (n : ℕ) (gw : Gateway)
    → gateway_at w.net.gateways n ≡ some g
    → gw.bulbs ≡ g.gw.bulbs
    → Linked w.net
    → Linked (on_write w g (some gw)).net
unfolding on_gateway
on_write-Linked w g n gw e same l =
    let e' = gateway_at-itself w.net.gateways n g e in
    rw (on_gateway, e')
      (SameLinks-Linked w.net _
        (SameBulbs-refl w.net.bulbs, set_gateway-SameGateways w.net.gateways g.number gw g e' same)
        l)

empty-Linked : (net : Network) → net.bulbs ≡ [] → net.gateways ≡ [] → Linked net
unfolding gw_of bulb_get bulbs_at gateway_at
empty-Linked net b g = record {
  distinct = subst Distinct (sym b) tt;
  numbers = subst DistinctNumbers (sym g) tt;
  home = λ addr n e.
      let f : none ≡ some n = ap (λ (bs : List RoutedBulb). gw_of bs addr) (sym b) ∙ e in cc;
  back = λ n l addr e i.
      let f : none ≡ some l = ap (λ (gs : List RoutedGateway). bulbs_at gs n) (sym g) ∙ e in cc;
  once = λ n l e.
      let f : none ≡ some l = ap (λ (gs : List RoutedGateway). bulbs_at gs n) (sym g) ∙ e in cc;
}

module _ (host : Host) (client_id : ℕ) (M : PacketInfoMap) (float_bits : ℕ → ℕ) where
  pub data Step (w : World) : World → Type 0 where
    packet :
        (system : System) (me : Option ℕ) (peer : List ℕ) (d : Delivery) (received_at : ℕ)
        → gateway_at w.net.gateways system.number ≡ none
        → GivenLive me w
        → Step w (handle_packet host client_id M system me peer d received_at w)
    watchdog : (now : ℕ) → Step w (watchdog_interval now w).0
    refresh_timer : (n : ℕ) → Step w (on_gateway (refresh_callback host client_id M) n w)
    write :
        (n : ℕ) (g : RoutedGateway) (result : WriteResult) (now : ℕ)
        → gateway_at w.net.gateways n ≡ some g
        → Step w (on_write w g (write_ready g.gw result now))
    read_error :
        (n : ℕ) (g : RoutedGateway)
        → gateway_at w.net.gateways n ≡ some g
        → Step w (gateway_close w g)
    request :
        (now : ℕ) (method : MethodHandler Daemon) (client : Client) (memory : List Bool)
        → Any
            (λ (m : MethodHandler Daemon). m ≡ method)
            (changing_methods host client_id M now float_bits)
        → Step w (called method client memory w)

  -- Reached from a world without bulbs and gateways.
  pub data Reach : World → Type 0 where
    start : (w : World) → w.net.bulbs ≡ [] → w.net.gateways ≡ [] → Reach w
    next : (w w' : World) → Reach w → Step w w' → Reach w'

  close-Linked :
      (w : World) (n : ℕ) (g : RoutedGateway)
      → gateway_at w.net.gateways n ≡ some g
      → Linked w.net
      → Linked (gateway_close w g).net
  close-Linked w n g e l =
      (gateway_close-Linked w g
        (bulbs_at-gateway_at w.net.gateways g.number g (gateway_at-itself w.net.gateways n g e))
        l).0

  write-Linked :
      (w : World) (n : ℕ) (g : RoutedGateway) (result : WriteResult) (now : ℕ)
      → gateway_at w.net.gateways n ≡ some g
      → Linked w.net
      → Linked (on_write w g (write_ready g.gw result now)).net
  unfolding write_ready
  write-Linked w n g WriteResult.failed now e l = close-Linked w n g e l
  write-Linked w n g (WriteResult.wrote k) now e l =
      on_write-Linked w g n (after_write g.gw (WriteResult.wrote k) now) e refl l
  write-Linked w n g WriteResult.again now e l =
      on_write-Linked w g n (after_write g.gw WriteResult.again now) e refl l

  Step-Linked : {w w' : World} → Step w w' → Linked w.net → Linked w'.net
  Step-Linked {w = w} (Step.packet system me peer d received_at free live) l =
      handle_packet-Linked host client_id M system me peer d received_at w free live l
  Step-Linked {w = w} (Step.watchdog now) l = watchdog_interval-Linked now w l
  Step-Linked {w = w} (Step.refresh_timer n) l =
      on_gateway-Linked (refresh_callback host client_id M) n w
        (refresh_callback-bulbs host client_id M) l
  Step-Linked {w = w} (Step.write n g result now e) l = write-Linked w n g result now e l
  Step-Linked {w = w} (Step.read_error n g e) l = close-Linked w n g e l
  Step-Linked {w = w} (Step.request now method client memory h) l =
      SameLinks-Linked w.net (called method client memory w).net
        (changing_methods-KeepsDaemon host client_id M now float_bits method h client
          (record { net = w.net; memory = memory }))
        l

  -- Whatever the daemon has received, written, been asked for and closed since it started without bulbs and
  -- gateways, in any order: each bulb of the table is in the list of its gateway, each bulb in the list of a
  -- gateway is in the table and on this gateway, and no address and no number is there twice.
  pub reachable-Linked : {w : World} → Reach w → Linked w.net
  reachable-Linked (Reach.start w no_bulbs no_gateways) = empty-Linked w.net no_bulbs no_gateways
  reachable-Linked (Reach.next w w' r s) = Step-Linked s (reachable-Linked r)
