-- ===== src/Jsonrpc/Methods/Links/Methods.antt =====
-- The same of each method of the daemon, as the table has them.
use mathlib.Core.Path.{subst}
use lightsd.Common.{Any, ℕ, ◌≡◌, inl, inr, List, [], ◌∷◌, Option-cases, ◌-◌}
use lightsd.Wire.PacketTable.{PacketInfoMap}
use lightsd.Wire.Endian.{Host}
use lightsd.Router.Devices.{targets_to_devices}
use lightsd.Router.Network.{Network, bulb_get}
use lightsd.Router.Sending.{Packet, send_to_bulb}
use lightsd.Router.Sending.Links.{send_to_bulb-SameLinks, send-SameLinks}
use lightsd.Handling.Links.{SameLinks, SameLinks-refl, SameLinks-trans}
use lightsd.Jsonrpc.Methods.{
  call_power_on, call_power_off, call_power_toggle, Daemon, proto_power, toggle_each,
  proto_power_toggle,
}
use lightsd.Jsonrpc.Methods.Light.{send_and_answer}
use lightsd.Jsonrpc.Methods.Labels.{with_label}
use lightsd.Jsonrpc.Methods.Saying.{ProtoMethod}
use lightsd.Jsonrpc.Methods.Links.Tagged.{proto_tag-Keeping, proto_untag-Keeping}
use lightsd.Gateway.Bulbs.{power_on, power_off}
use lightsd.Jsonrpc.Dispatch.{MethodHandler}
use lightsd.Jsonrpc.Methods.Links.{
  Keeping, KeepsDaemon, check_and_call-SameLinks, check_params_and_call-SameLinks,
  with_label-SameLinks,
}
use lightsd.Jsonrpc.Methods.Light.{
  call_set_light_from_hsbk, call_set_waveform, light_schema, parse_hsbk, waveform_schema,
  parse_waveform_args,
}
use lightsd.Jsonrpc.Methods.Labels.{
  call_tag, call_untag, call_set_label, label_schema, parse_label, check_and_call_label,
}

module _ (host : Host) (client_id : ℕ) (M : PacketInfoMap) (now : ℕ) where
  send_and_answer-Keeping : (pkt : Packet) → Keeping (send_and_answer host client_id M now pkt)
  unfolding send_and_answer
  send_and_answer-Keeping pkt client daemon ts =
      send-SameLinks host client_id M daemon.net ts pkt now

  proto_power-Keeping : (power : ℕ) → Keeping (proto_power host client_id M now power)
  unfolding proto_power
  proto_power-Keeping power client daemon ts =
      send-SameLinks host client_id M daemon.net ts (Packet.sets_power power) now

  toggle_each-SameLinks :
      (devices : List (List ℕ)) (net : Network)
      → SameLinks net (toggle_each host client_id M now net devices)
  unfolding toggle_each
  toggle_each-SameLinks [] net = SameLinks-refl net
  toggle_each-SameLinks (addr ∷ devices) net = elim (Option-cases (bulb_get net.bulbs addr)) [
    | inl e ↦ rw (e, toggle_each) (toggle_each-SameLinks devices net)
    | inr (b, e) ↦
        let net' : Network =
          send_to_bulb host client_id M net b (Packet.sets_power (65535 - b.bulb.state.power))
            now in
        rw (e, toggle_each)
          (SameLinks-trans net net' (toggle_each host client_id M now net' devices)
            (send_to_bulb-SameLinks host client_id M net b _ now)
            (toggle_each-SameLinks devices net'))
  ]

  proto_power_toggle-Keeping : Keeping (proto_power_toggle host client_id M now)
  unfolding proto_power_toggle
  proto_power_toggle-Keeping client daemon ts =
      elim (Option-cases (targets_to_devices daemon.net ts daemon.memory)) [
        | inl e ↦ rw (e, proto_power_toggle) (SameLinks-refl daemon.net)
        | inr ((devices, memory), e) ↦
            rw (e, proto_power_toggle) (toggle_each-SameLinks devices daemon.net)
      ]

  label_method-KeepsDaemon :
      (f : List ℕ → ProtoMethod)
      → ((label : List ℕ) → Keeping (f label))
      → KeepsDaemon (check_and_call_label f)
  label_method-KeepsDaemon f keeps =
      check_params_and_call-SameLinks label_schema 2 parse_label (with_label f)
        (with_label-SameLinks f keeps)

  -- The methods of the table, but for get_light_state, which sends nothing.
  abbrev pub changing_methods : (ℕ → ℕ) → List (MethodHandler Daemon)
  changing_methods float_bits =
      call_power_on host client_id M now
      ∷ call_power_off host client_id M now
      ∷ call_power_toggle host client_id M now
      ∷ call_set_light_from_hsbk host client_id M now
      ∷ call_set_waveform host client_id M now float_bits
      ∷ call_tag host client_id M now
      ∷ call_untag host client_id M now
      ∷ call_set_label host client_id M now
      ∷ []

  abbrev KeepAll : List (MethodHandler Daemon) → Type 0
  KeepAll [] = Unit {0}
  KeepAll (m ∷ ms) = KeepsDaemon m × KeepAll ms

  all_keep : (float_bits : ℕ → ℕ) → KeepAll (changing_methods float_bits)
  all_keep float_bits = (
    check_and_call-SameLinks _ (proto_power-Keeping power_on),
    (
      check_and_call-SameLinks _ (proto_power-Keeping power_off),
      (
        check_and_call-SameLinks _ proto_power_toggle-Keeping,
        (
          check_params_and_call-SameLinks light_schema 6 parse_hsbk _
              (λ args. send_and_answer-Keeping _),
          (
            check_params_and_call-SameLinks waveform_schema 10 parse_waveform_args _
                (λ args. send_and_answer-Keeping _),
            (
              label_method-KeepsDaemon _ (proto_tag-Keeping host client_id M now),
              (
                label_method-KeepsDaemon _ (proto_untag-Keeping host client_id M now),
                (label_method-KeepsDaemon _ (λ label. send_and_answer-Keeping _), tt),
              ),
            ),
          ),
        ),
      ),
    ),
  )

  one_keeps :
      (ms : List (MethodHandler Daemon)) (method : MethodHandler Daemon)
      → KeepAll ms
      → Any (λ (m : MethodHandler Daemon). m ≡ method) ms
      → KeepsDaemon method
  one_keeps [] method all h = absurd h
  one_keeps (m ∷ ms) method (keeps, all) (inl e) = subst KeepsDaemon e keeps
  one_keeps (m ∷ ms) method (keeps, all) (inr h) = one_keeps ms method all h

  pub changing_methods-KeepsDaemon :
      (float_bits : ℕ → ℕ) (method : MethodHandler Daemon)
      → Any (λ (m : MethodHandler Daemon). m ≡ method) (changing_methods float_bits)
      → KeepsDaemon method
  changing_methods-KeepsDaemon float_bits method h =
      one_keeps (changing_methods float_bits) method (all_keep float_bits) h
