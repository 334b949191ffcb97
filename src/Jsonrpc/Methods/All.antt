-- ===== src/Jsonrpc/Methods/All.antt =====
-- What the methods of the daemon write to the client.
use lightsd.Common.{ℕ, inl, inr, List, Bool, true, false, none, some, Option, Option-cases}
use lightsd.Wire.PacketTable.{PacketInfoMap}
use lightsd.Wire.Endian.{Host}
use lightsd.Gateway.Bulbs.{power_on, power_off}
use lightsd.Tagging.{find_tag, Tags}
use lightsd.Jsonrpc.Client.{Client}
use lightsd.Router.Devices.{targets_to_devices}
use lightsd.Router.Network.{Network}
use lightsd.Router.Sending.{Packet, send}
use lightsd.Jsonrpc.Methods.{
  proto_power, proto_power_toggle, target_schema, call_power_on, call_power_off, call_power_toggle,
}
use lightsd.Jsonrpc.Methods.Answering.{Hears, Reports, Hears-result}
use lightsd.Jsonrpc.Methods.Light.{
  light_schema, parse_hsbk, waveform_schema, parse_waveform_args, send_and_answer,
  call_set_light_from_hsbk, call_set_waveform,
}
use lightsd.Jsonrpc.Methods.Tagged.{proto_tag, proto_untag, with_tag, send_tag, find_or_allocate}
use lightsd.Jsonrpc.Methods.Labels.{
  label_schema, parse_label, with_label, check_and_call_label, call_tag, call_untag, call_set_label,
}
use lightsd.Jsonrpc.Methods.Saying.{
  ProtoMethod, AlwaysHears, check_and_call-Reports, check_params_and_call-Reports,
  Hears-no_device_list, Hears-no_new_tag,
}
use lightsd.Jsonrpc.Methods.Nulls.{hsbk_Speaks, waveform_Speaks, label_Speaks}

module _ (host : Host) (client_id : ℕ) (M : PacketInfoMap) (now : ℕ) where
  send_and_answer-Hears : (pkt : Packet) → AlwaysHears (send_and_answer host client_id M now pkt)
  unfolding send_and_answer
  send_and_answer-Hears pkt client daemon ts =
      Hears-result client (send host client_id M daemon.net ts pkt now).0

  proto_power-Hears : (power : ℕ) → AlwaysHears (proto_power host client_id M now power)
  unfolding proto_power
  proto_power-Hears power client daemon ts =
      Hears-result client (send host client_id M daemon.net ts (Packet.sets_power power) now).0

  proto_power_toggle-Hears : AlwaysHears (proto_power_toggle host client_id M now)
  unfolding proto_power_toggle
  proto_power_toggle-Hears client daemon ts =
      elim (Option-cases (targets_to_devices daemon.net ts daemon.memory)) [
        | inl e ↦ rw (e, proto_power_toggle) (Hears-no_device_list client)
        | inr (found, e) ↦ rw (e, proto_power_toggle) (Hears-result client true)
      ]

  send_tag-Hears :
      (tag : ℕ) (label : List ℕ) (devices : List (List ℕ)) (client : Client)
      (r : Bool × Network × List Bool)
      → Hears client (send_tag host client_id M now tag label devices client r).0
  send_tag-Hears tag label devices client (false, net, memory) = Hears-no_new_tag client
  send_tag-Hears tag label devices client (true, net, memory) = Hears-result client true

  with_tag-Hears :
      (label : List ℕ) (devices : List (List ℕ)) (client : Client) (net : Network)
      (r : Option (ℕ × Tags) × List Bool)
      → Hears client (with_tag host client_id M now label devices client net r).0
  with_tag-Hears label devices client net (none, memory) = Hears-no_new_tag client
  with_tag-Hears label devices client net (some (tag, tags), memory) =
      send_tag-Hears tag label devices client _

  proto_tag-Hears : (label : List ℕ) → AlwaysHears (proto_tag host client_id M now label)
  unfolding proto_tag
  proto_tag-Hears label client daemon ts =
      elim (Option-cases (targets_to_devices daemon.net ts daemon.memory)) [
        | inl e ↦ rw (e, proto_tag) (Hears-no_new_tag client)
        | inr ((devices, memory), e) ↦
            rw (e, proto_tag)
              (with_tag-Hears label devices client daemon.net
                (find_or_allocate daemon.net.tags label memory))
      ]

  proto_untag-Hears : (label : List ℕ) → AlwaysHears (proto_untag host client_id M now label)
  unfolding proto_untag
  proto_untag-Hears label client daemon ts = elim (Option-cases (find_tag daemon.net.tags label)) [
    | inl e ↦ rw (e, proto_untag) (Hears-result client true)
    | inr (tag, e) ↦ elim (Option-cases (targets_to_devices daemon.net ts daemon.memory)) [
      | inl f ↦ rw (e, f, proto_untag) (Hears-no_device_list client)
      | inr (found, f) ↦ rw (e, f, proto_untag) (Hears-result client true)
    ]
  ]

  -- Every method of the daemon but get_light_state, whatever the request, the network and the memory are, writes
  -- one message to the client, with the id of the current request or null: the result true or false, or one
  -- of four errors; and leaves the rest of the client as it was. Or it writes nothing, and this only if its
  -- parameters are valid by its schema although one that is not optional is NULL, or the target is there with no
  -- token, or with another number than one while it is no array.
  pub changing_methods-Reports :
      (float_bits : ℕ → ℕ)
      → Reports target_schema 1 (call_power_on host client_id M now)
        × Reports target_schema 1 (call_power_off host client_id M now)
        × Reports target_schema 1 (call_power_toggle host client_id M now)
        × Reports light_schema 6 (call_set_light_from_hsbk host client_id M now)
        × Reports waveform_schema 10 (call_set_waveform host client_id M now float_bits)
        × Reports label_schema 2 (call_tag host client_id M now)
        × Reports label_schema 2 (call_untag host client_id M now)
        × Reports label_schema 2 (call_set_label host client_id M now)
  changing_methods-Reports float_bits = (
    check_and_call-Reports _ (proto_power-Hears power_on),
    check_and_call-Reports _ (proto_power-Hears power_off),
    check_and_call-Reports _ proto_power_toggle-Hears,
    check_params_and_call-Reports light_schema 6 parse_hsbk _
        (hsbk_Speaks _ (λ args. send_and_answer-Hears _)),
    check_params_and_call-Reports waveform_schema 10 parse_waveform_args _
        (waveform_Speaks _ (λ args. send_and_answer-Hears _)),
    label_method _ proto_tag-Hears,
    label_method _ proto_untag-Hears,
    label_method _ (λ label. send_and_answer-Hears _),
  )
    where
      label_method :
          (f : List ℕ → ProtoMethod)
          → ((label : List ℕ) → AlwaysHears (f label))
          → Reports label_schema 2 (check_and_call_label f)
      label_method f hears =
          check_params_and_call-Reports label_schema 2 parse_label (with_label f)
            (label_Speaks f hears)
