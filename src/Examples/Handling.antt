-- ===== src/Examples/Handling.antt =====
-- The daemon from its start: a gateway and then one of its bulbs are heard of for the first time.
use lightsd.Common.{ℕ, refl, List, [], ◌∷◌, true, none, some}
use lightsd.Wire.PacketType
use lightsd.Wire.PacketInfo.{Decoder, Encoder, Handler, entry}
use lightsd.Wire.PacketTable.Find.{row_list}
use lightsd.Wire.Endian.{Host}
use lightsd.Wire.Header.{Target, blank_header}
use lightsd.Wire.Receive.{Delivery}
use lightsd.Gateway.Send.{refresh_callback}
use lightsd.Router.Network.{gateway_at, set_gateway}
use lightsd.Discovery.Watchdog.{World}
use lightsd.Handling.{on_gateway}
use lightsd.Handling.Payload.{decode_payload}
use lightsd.Handling.Packets.{
  System, handle, gateway_get, get_or_open_gateway, gateway_open, handle_packet,
}
use lightsd.Handling.Links.{Linked}
use lightsd.Handling.Links.Gateways.{handle_packet-Linked}
use lightsd.Handling.Lifetime.{Reach, Step, reachable-Linked}

abbrev system : System
system = record {
  number = 1;
  opens = true;
  bulb_memory = true;
  tag_memory = λ n. (true, true);
  now = 100;
}

abbrev site : List ℕ
site = 208 ∷ 115 ∷ 213 ∷ 1 ∷ 2 ∷ 3 ∷ []

abbrev peer : List ℕ
peer = 2 ∷ 0 ∷ 192 ∷ 168 ∷ 0 ∷ 2 ∷ []

abbrev pan_gateway_packet : Delivery
pan_gateway_packet =
    let info =
      entry "PAN_GATEWAY" PacketType.pan_gateway 5 Decoder.pan_gateway Encoder.none
        Handler.pan_gateway in
    record {
      info = info;
      hdr = blank_header Host.little 0 Target.site (some site) info;
      pkt = 1 ∷ 0 ∷ 0 ∷ 0 ∷ 0 ∷ [];
    }

abbrev power_state_packet : Delivery
power_state_packet =
    let info =
      entry "POWER_STATE" PacketType.power_state 2 Decoder.power_state Encoder.none
        Handler.power_state in
    record {
      info = info;
      hdr = blank_header Host.little 0 (Target.device site) (some site) info;
      pkt = 255 ∷ 255 ∷ [];
    }

abbrev at_start : World
at_start = record {
  net = record { bulbs = []; gateways = []; tags = record { list = []; fresh = 1 } };
  stats = record { gateways = 0; bulbs = 0; bulbs_powered_on = 0 };
}

abbrev discovered : World
discovered = handle_packet Host.little 7 row_list system none peer pan_gateway_packet 90 at_start

abbrev pub lit : World
lit =
    handle_packet Host.little 7 row_list (record system { number = 2 }) (some 1) peer
      power_state_packet 95 discovered

reached : Reach Host.little 7 row_list (λ n. n) discovered
unfolding gateway_at
reached =
    Reach.next at_start discovered (Reach.start at_start refl refl)
      (Step.packet system none peer pan_gateway_packet 90 refl tt)

reached_lit : Reach Host.little 7 row_list (λ n. n) lit
unfolding gateway_at handle_packet get_or_open_gateway gateway_get gateway_open handle
    decode_payload on_gateway set_gateway
reached_lit =
    Reach.next discovered lit reached (
      Step.packet (record system { number = 2 }) (some 1) peer power_state_packet 95 refl (_, refl))

pub lit_Linked : Linked lit.net
lit_Linked = reachable-Linked Host.little 7 row_list (λ n. n) reached_lit

reachable-Linked_example : Linked (on_gateway (refresh_callback Host.little 7 row_list) 1 lit).net
reachable-Linked_example =
    reachable-Linked Host.little 7 row_list (λ n. n)
      (Reach.next lit (on_gateway (refresh_callback Host.little 7 row_list) 1 lit) reached_lit
        (Step.refresh_timer 1))

handle_packet-Linked_example : Linked lit.net
unfolding gateway_at handle_packet get_or_open_gateway gateway_get gateway_open handle
    decode_payload on_gateway set_gateway
handle_packet-Linked_example =
    handle_packet-Linked Host.little 7 row_list (record system { number = 2 }) (some 1) peer
      power_state_packet 95 discovered refl (_, refl)
      (reachable-Linked Host.little 7 row_list (λ n. n) reached)
