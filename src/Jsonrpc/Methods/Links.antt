-- ===== src/Jsonrpc/Methods/Links.antt =====
-- What the methods of the daemon leave as it was: the addresses and gateways of the bulbs, and the lists of
-- the gateways.
pub mod Tagged
pub mod Methods
use lightsd.Common.{
  ℕ, ◌≡◌, refl, sym, ap, ◌∙◌, inl, inr, List, [], ◌∷◌, Bool, true, false, Option, none, some,
  Bool-cases, Option-cases, ◌==◌, ◌-◌, bit_and, bit_or, if_both, get_or,
}
use lightsd.Wire.PacketType
use lightsd.Wire.PacketTable.{PacketInfoMap}
use lightsd.Wire.Endian.{Host}
use lightsd.Wire.TagIds.{tag_id_to_value}
use lightsd.Gateway.TagIds.{TagState, get_tag_id, allocate_tag_id, deallocate_tag_id}
use lightsd.Tagging.Labels.{Label}
use lightsd.Tagging.{Site, Tags, find_tag}
use lightsd.Jsonrpc.Tokens.{Token}
use lightsd.Jsonrpc.Schema.{Node, Output, Extracted, extract_params}
use lightsd.Jsonrpc.Client.{Client}
use lightsd.Router.Devices.{targets_to_devices}
use lightsd.Router.Network.{RoutedBulb, RoutedGateway, Network, bulb_get, gateway_at, before_zero}
use lightsd.Router.Sending.{Packet, send, send_to_bulb}
use lightsd.Router.Sending.Links.{send_to_bulb-SameLinks, send-SameLinks}
use lightsd.Handling.Links.{
  SameBulbs, SameGateways, SameLinks, SameBulbs-refl, SameGateways-refl, SameLinks-refl,
  SameLinks-trans,
}
use lightsd.Handling.Links.Handled.{set_gateway-SameGateways}
use lightsd.Handling.Links.Kept.{send_to_site-bulbs}
use lightsd.Handling.Links.Tags.{allocate_tag_id-bulbs, deallocate_tag_id-bulbs}
use lightsd.Jsonrpc.Methods.{
  Daemon, Targets, next_memory, params_of, extract_target_list, target_list_of, with_targets,
  check_and_call, proto_power, toggle_each, proto_power_toggle,
}
use lightsd.Jsonrpc.Methods.Params.{
  Taken, null, refused, taken, no_params, call_taken, after_extraction, check_params_and_call,
}
use lightsd.Jsonrpc.Methods.Light.{send_and_answer}
use lightsd.Jsonrpc.Methods.Tagged.{
  gateway_of, set_tag_state, allocate_each, deallocate_each, undo_tag, sites_of, label_sites,
  send_tags, tag_device, untag_device, each_device, int_tag_value, send_tag, with_tag,
  find_or_allocate, proto_tag, proto_untag,
}
use lightsd.Jsonrpc.Methods.Labels.{with_label}
use lightsd.Jsonrpc.Methods.Saying.{ProtoMethod}

abbrev pub Keeping : ProtoMethod → Type 0
Keeping f =
    (client : Client) (daemon : Daemon) (ts : List (List ℕ))
    → SameLinks daemon.net (f client daemon ts).1.net

with_targets-SameLinks :
    (f : ProtoMethod)
    → Keeping f
    → (daemon : Daemon) (r : Targets) → SameLinks daemon.net (with_targets f daemon r).1.net
with_targets-SameLinks f keeps daemon (client, none, memory) = SameLinks-refl daemon.net
with_targets-SameLinks f keeps daemon (client, some ts, memory) =
    keeps client (record daemon { memory = memory }) ts

abbrev pub KeepsDaemon : (Client → Daemon → Client × Daemon) → Type 0
KeepsDaemon f = (client : Client) (daemon : Daemon) → SameLinks daemon.net (f client daemon).1.net

pub check_and_call-SameLinks : (f : ProtoMethod) → Keeping f → KeepsDaemon (check_and_call f)
unfolding check_and_call
check_and_call-SameLinks f keeps client daemon =
    with_targets-SameLinks f keeps daemon (extract_target_list client daemon.memory)

after_extraction-SameLinks :
    {A : Type 0} (parse : List Token → Output → Taken A) (f : A → ProtoMethod)
    → ((a : A) → Keeping (f a))
    → (client : Client) (daemon : Daemon) (tokens : List Token) (r : Extracted)
    → SameLinks daemon.net (after_extraction parse f client daemon tokens r).1.net
after_extraction-SameLinks parse f keeps client daemon tokens Extracted.exhausted =
    SameLinks-refl daemon.net
after_extraction-SameLinks parse f keeps client daemon tokens (Extracted.invalid out) =
    SameLinks-refl daemon.net
after_extraction-SameLinks {A = A} parse f keeps client daemon tokens (Extracted.valid out) =
    from (parse tokens out)
  where
    from :
        (t : Taken A)
        → SameLinks daemon.net
            (call_taken t f client daemon
              (target_list_of client tokens daemon.memory (Extracted.valid out))).1.net
    from null = SameLinks-refl daemon.net
    from refused = SameLinks-refl daemon.net
    from (taken a) = with_targets-SameLinks (f a) (keeps a) daemon _

pub check_params_and_call-SameLinks :
    {A : Type 0} (schema : List Node) (size : ℕ) (parse : Client → List Token → Output → Taken A)
    (f : A → ProtoMethod)
    → ((a : A) → Keeping (f a))
    → KeepsDaemon (check_params_and_call schema size parse f)
unfolding check_params_and_call
check_params_and_call-SameLinks schema size parse f keeps client daemon =
    let params = params_of client.current_request in
    after_extraction-SameLinks (parse client) f keeps client daemon params.0
      (extract_params schema client.json params.0 params.1 (no_params size))

pub with_label-SameLinks :
    (f : List ℕ → ProtoMethod)
    → ((label : List ℕ) → Keeping (f label))
    → (text : Option (List ℕ)) → Keeping (with_label f text)
unfolding with_label
with_label-SameLinks f keeps none client daemon ts = SameLinks-refl daemon.net
with_label-SameLinks f keeps (some text) client daemon ts =
    if_both (λ (r : Client × Daemon). SameLinks daemon.net r.1.net) (next_memory daemon.memory).0 _
      _
      (keeps (before_zero text) client (record daemon { memory = (next_memory daemon.memory).1 })
        ts)
      (SameLinks-refl daemon.net)

-- A gateway that is changed together with the tags.
pub set_tag_state-SameLinks :
    (net : Network) (n : ℕ) (g : RoutedGateway) (s : TagState)
    → gateway_at net.gateways n ≡ some g
    → s.gw.bulbs ≡ g.gw.bulbs
    → SameLinks net (set_tag_state net n s)
set_tag_state-SameLinks net n g s e same =
    (SameBulbs-refl net.bulbs, set_gateway-SameGateways net.gateways n s.gw g e same)
