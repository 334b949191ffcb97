-- ===== src/Examples/Router.antt =====
-- A network of one bulb, and the theorems on the router and on the methods applied to it.
use lightsd.Common.{ℕ, ◌≡◌, refl, List, [], ◌∷◌, ◌++◌, Any, Bool, true, some, replicate}
use lightsd.Common.Bytes.{codes}
use lightsd.Wire.PacketTable.Find.{row_list}
use lightsd.Wire.Endian.{Host}
use lightsd.Gateway.State.{opened}
use lightsd.Gateway.Hardware.{no_hardware}
use lightsd.Router.Network.{RoutedBulb, RoutedGateway, Network}
use lightsd.Router.Devices.{targets_to_devices}
use lightsd.Router.Devices.Known.{Listed}
use lightsd.Router.Devices.Insert.{NoDuplicates}
use lightsd.Router.Targets.{Selects}
use lightsd.Router.Devices.Exact.{targets_to_devices-exact}
use lightsd.Jsonrpc.Methods.{target_schema, call_power_on, call_power_off, call_power_toggle}
use lightsd.Jsonrpc.Methods.Light.{
  light_schema, waveform_schema, call_set_light_from_hsbk, call_set_waveform,
}
use lightsd.Jsonrpc.Methods.Labels.{label_schema, call_tag, call_untag, call_set_label}
use lightsd.Jsonrpc.Methods.Answering.{Reports}
use lightsd.Jsonrpc.Methods.All.{changing_methods-Reports}

abbrev bulb_addr : List ℕ
bulb_addr = 208 ∷ 115 ∷ 213 ∷ 1 ∷ 2 ∷ 3 ∷ []

abbrev pub bulb : RoutedBulb
bulb = record {
  bulb = record {
    addr = bulb_addr;
    last_light_state_at = 0;
    dirty_at = 0;
    expected_power_on = 0;
    hardware = no_hardware;
    state = record {
      hue = 0;
      saturation = 0;
      brightness = 0;
      kelvin = 3000;
      dim = 0;
      power = 0;
      label = codes "desk" ++ replicate 28 0;
      tags = 0;
    };
  };
  gw = 1;
}

abbrev gateway : RoutedGateway
gateway = record {
  number = 1;
  peer = 2 ∷ 0 ∷ 192 ∷ 168 ∷ 0 ∷ 2 ∷ [];
  gw = record (opened (1 ∷ 2 ∷ 3 ∷ 4 ∷ 5 ∷ 6 ∷ []) 5) { bulbs = bulb_addr ∷ [] };
}

abbrev pub net : Network
net = record { bulbs = bulb ∷ []; gateways = gateway ∷ []; tags = record { list = []; fresh = 1 } }

-- The label and the address of the same bulb.
abbrev desk : List (List ℕ)
desk = codes "desk" ∷ codes "d073d5010203" ∷ []

targets_to_devices-exact_example :
    (devices : List (List ℕ)) × (memory' : List Bool) × (targets_to_devices net desk
        (true ∷ true ∷ [])
      ≡ some (devices, memory'))
    × NoDuplicates devices
    × ((a : List ℕ) → Listed a devices → Any (Selects net a) desk)
    × ((a : List ℕ) → Any (Selects net a) desk → Listed a devices)
targets_to_devices-exact_example =
    targets_to_devices-exact net ((λ h. h), tt) desk (true ∷ true ∷ []) (refl, (refl, tt))

changing_methods-Reports_example :
    Reports target_schema 1 (call_power_on Host.little 7 row_list 100)
    × Reports target_schema 1 (call_power_off Host.little 7 row_list 100)
    × Reports target_schema 1 (call_power_toggle Host.little 7 row_list 100)
    × Reports light_schema 6 (call_set_light_from_hsbk Host.little 7 row_list 100)
    × Reports waveform_schema 10 (call_set_waveform Host.little 7 row_list 100 (λ n. n))
    × Reports label_schema 2 (call_tag Host.little 7 row_list 100)
    × Reports label_schema 2 (call_untag Host.little 7 row_list 100)
    × Reports label_schema 2 (call_set_label Host.little 7 row_list 100)
changing_methods-Reports_example = changing_methods-Reports Host.little 7 row_list 100 (λ n. n)
