-- ===== src/Jsonrpc/Methods.antt =====
-- The methods of jsonrpc.c that only have targets, with the functions of core/proto.c that they call. The
-- host's byte order, the client id, the tree of packet infos and the time are given. The Booleans of
-- `memory` say whether malloc and calloc give memory, and past them they do.
pub mod Params
pub mod Light
pub mod Tagged
pub mod Labels
pub mod Answering
pub mod Saying
pub mod Nulls
pub mod All
pub mod Ranges
pub mod Links
use Prim.Native.String.{String}
use lightsd.Common.{
  ℕ, zero, suc, ◌+◌, ◌-◌, List, [], ◌∷◌, Bool, true, false, not, Option, none, some, get_or, drop,
  ltb, ◌==◌, if◌then◌else◌,
}
use lightsd.Common.Bytes.{codes}
use lightsd.Wire.PacketTable.{PacketInfoMap}
use lightsd.Wire.Endian.{Host}
use lightsd.Gateway.Bulbs.{power_on, power_off}
use lightsd.Jsonrpc.Tokens.{Token, token_at, token_bytes, is_array}
use lightsd.Jsonrpc.Types.{type_string_or_number, type_string_number_or_array}
use lightsd.Jsonrpc.Schema.{Node, Output, Extracted, extract_params}
use lightsd.Jsonrpc.Client.{Request, Client, ErrorCode, send_response, send_error}
use lightsd.Router.Network.{RoutedBulb, Network, bulb_get}
use lightsd.Router.Devices.{targets_to_devices}
use lightsd.Router.Sending.{Packet, send_to_bulb, send}

pub record Daemon : Type 0 where
  pub net : Network
  pub memory : List Bool

abbrev pub next_memory : List Bool → Bool × List Bool
next_memory [] = (true, [])
next_memory (b ∷ memory) = (b, memory)

abbrev pub Targets : Type 0
Targets = Client × Option (List (List ℕ)) × List Bool

abbrev pub invalid_params : Client → Client
invalid_params client = send_error client ErrorCode.invalid_params (codes "Invalid parameters")

-- The loop of lgtd_jsonrpc_build_target_list, from the last of the `n` tokens at `first` on.
unfoldable pub build_targets : Client → List Token → ℕ → ℕ → List (List ℕ) → List Bool → Targets
build_targets client tokens first zero targets memory = (client, some targets, memory)
build_targets client tokens first (suc n) targets memory =
    let t : Token = token_at tokens (first + n) in
    let more = build_targets client tokens first n (token_bytes client.json t ∷ targets) in
    if type_string_or_number t client.json
    then (let (enough, memory') = next_memory memory in
        if enough then more memory' else (
          send_error client ErrorCode.internal_error (codes "Can't allocate memory"),
          none,
          memory',
        ))
    else (invalid_params client, none, memory)

-- lgtd_jsonrpc_build_target_list; `none` is `false`.
unfoldable pub build_target_list : Client → List Token → ℕ → ℕ → List Bool → Targets
build_target_list client tokens target target_ntokens memory =
    if target_ntokens == 0
    then (client, none, memory)
    else if is_array (token_at tokens target).type
    then build_targets client tokens (target + 1) (target_ntokens - 1) [] memory
    else if not (target_ntokens == 1)
    then (client, none, memory)
    else build_targets client tokens target target_ntokens [] memory

abbrev pub target_node : Node
target_node = record {
  key = codes "target";
  value_slot = some 0;
  ntokens_slot = some 0;
  type_cmp = type_string_number_or_array;
  optional = false;
}

abbrev pub target_schema : List Node
target_schema = target_node ∷ []

abbrev pub no_target : Output
no_target = record { values = none ∷ []; counts = 0 ∷ [] }

-- The tokens of the parameters.
abbrev pub params_of : Option Request → List Token × ℕ
params_of none = ([], 0)
params_of (some request) = elim request.params [
  | none ↦ ([], request.params_ntokens)
  | some ti ↦ (drop ti request.tokens, request.params_ntokens)
]

-- What follows the extraction. A target that is NULL is an assertion; it is not looked at, because its
-- number of tokens is 0 then.
abbrev pub target_list_of : Client → List Token → List Bool → Extracted → Targets
target_list_of client tokens memory Extracted.exhausted = (client, none, memory)
target_list_of client tokens memory (Extracted.invalid out) = (invalid_params client, none, memory)
target_list_of client tokens memory (Extracted.valid out) = elim (get_or out.values 0 none) [
  | none ↦ (client, none, memory)
  | some target ↦ build_target_list client tokens target (get_or out.counts 0 0) memory
]

-- lgtd_jsonrpc_extract_target_list
unfoldable pub extract_target_list : Client → List Bool → Targets
extract_target_list client memory =
    let (tokens, ntokens) = params_of client.current_request in
    target_list_of client tokens memory
      (extract_params target_schema client.json tokens ntokens no_target)

-- SEND_RESULT
abbrev pub send_result : Client → Bool → Client
send_result client ok = send_response client (if ok then codes "true" else codes "false")

abbrev pub with_targets :
    (Client → Daemon → List (List ℕ) → Client × Daemon) → Daemon → Targets → Client × Daemon
with_targets proto_method daemon (client, none, memory) =
    (client, record daemon { memory = memory })
with_targets proto_method daemon (client, some targets, memory) =
    proto_method client (record daemon { memory = memory }) targets

-- CHECK_AND_CALL_TARGETS_ONLY_METHOD
unfoldable pub check_and_call :
    (Client → Daemon → List (List ℕ) → Client × Daemon) → Client → Daemon → Client × Daemon
check_and_call proto_method client daemon =
    with_targets proto_method daemon (extract_target_list client daemon.memory)

module _ (host : Host) (client_id : ℕ) (M : PacketInfoMap) (now : ℕ) where
  -- lgtd_proto_power_on and lgtd_proto_power_off
  unfoldable pub proto_power : ℕ → Client → Daemon → List (List ℕ) → Client × Daemon
  proto_power power client daemon targets =
      let (ok, net) = send host client_id M daemon.net targets (Packet.sets_power power) now in
      (send_result client ok, record daemon { net = net })

  -- The loop of lgtd_proto_power_toggle over the devices.
  unfoldable pub toggle_each : Network → List (List ℕ) → Network
  toggle_each net [] = net
  toggle_each net (addr ∷ devices) = elim (bulb_get net.bulbs addr) [
    | none ↦ toggle_each net devices
    | some b ↦
        toggle_each
          (send_to_bulb host client_id M net b (Packet.sets_power (65535 - b.bulb.state.power)) now)
          devices
  ]

  -- lgtd_proto_power_toggle
  unfoldable pub proto_power_toggle : Client → Daemon → List (List ℕ) → Client × Daemon
  proto_power_toggle client daemon targets =
      elim (targets_to_devices daemon.net targets daemon.memory) [
        | none ↦
            (send_error client ErrorCode.internal_error (codes "couldn't allocate memory"), daemon)
        | some (devices, memory) ↦ (
          send_result client true,
          record { net = toggle_each daemon.net devices; memory = memory },
        )
      ]

  -- The three methods of the table.
  abbrev pub call_power_on : Client → Daemon → Client × Daemon
  call_power_on = check_and_call (proto_power power_on)

  abbrev pub call_power_off : Client → Daemon → Client × Daemon
  call_power_off = check_and_call (proto_power power_off)

  abbrev pub call_power_toggle : Client → Daemon → Client × Daemon
  call_power_toggle = check_and_call proto_power_toggle
