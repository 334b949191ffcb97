-- ===== src/Jsonrpc/Methods/Labels.antt =====
-- The methods tag, untag and set_label: jsonrpc.c, and lgtd_proto_set_label of core/proto.c.
use lightsd.Common.{ℕ, List, [], ◌∷◌, false, Option, none, some, get_or, if◌then◌else◌}
use lightsd.Common.Bytes.{codes}
use lightsd.Wire.PacketType
use lightsd.Wire.PacketTable.{PacketInfoMap}
use lightsd.Wire.Endian.{Host}
use lightsd.Tagging.Labels.{Label}
use lightsd.Router.Network.{before_zero}
use lightsd.Router.Sending.{Packet}
use lightsd.Jsonrpc.Tokens.{Token, token_at, token_bytes}
use lightsd.Jsonrpc.Types.{type_string}
use lightsd.Jsonrpc.Schema.{Node, Output}
use lightsd.Jsonrpc.Client.{Client, ErrorCode, send_error}
use lightsd.Jsonrpc.Methods.{Daemon, target_node, next_memory}
use lightsd.Jsonrpc.Methods.Params.{Taken, taken, value_node, check_params_and_call}
use lightsd.Jsonrpc.Methods.Light.{send_and_answer}
use lightsd.Jsonrpc.Methods.Tagged.{padded, proto_tag, proto_untag}

abbrev pub label_schema : List Node
label_schema = target_node ∷ value_node "label" 1 type_string false ∷ []

-- The text of the label, or NULL, which is read only when the targets are there.
abbrev pub parse_label : Client → List Token → Output → Taken (Option (List ℕ))
parse_label client tokens out = taken (elim (get_or out.values 1 none) [
  | none ↦ none
  | some ti ↦ some (token_bytes client.json (token_at tokens ti))
])

-- strndup of the label, and the function of core/proto.c.
unfoldable pub with_label :
    (Label → Client → Daemon → List (List ℕ) → Client × Daemon)
    → Option (List ℕ)
    → Client
    → Daemon
    → List (List ℕ)
    → Client × Daemon
with_label proto_fn none client daemon targets = (client, daemon)
with_label proto_fn (some text) client daemon targets =
    let (enough, memory) = next_memory daemon.memory in
    if enough
    then proto_fn (before_zero text) client (record daemon { memory = memory }) targets
    else (
      send_error client ErrorCode.internal_error (codes "Can't allocate memory"),
      record daemon { memory = memory },
    )

-- lgtd_jsonrpc_check_and_call_proto_tag_or_untag_or_set_label
abbrev pub check_and_call_label :
    (Label → Client → Daemon → List (List ℕ) → Client × Daemon) → Client → Daemon → Client × Daemon
check_and_call_label proto_fn =
    check_params_and_call label_schema 2 parse_label (with_label proto_fn)

module _ (host : Host) (client_id : ℕ) (M : PacketInfoMap) (now : ℕ) where
  -- lgtd_proto_set_label
  abbrev pub proto_set_label : Label → Client → Daemon → List (List ℕ) → Client × Daemon
  proto_set_label label =
      send_and_answer host client_id M now
        (Packet.packet PacketType.set_bulb_label (some (padded 32 32 label)))

  abbrev pub call_tag : Client → Daemon → Client × Daemon
  call_tag = check_and_call_label (proto_tag host client_id M now)

  abbrev pub call_untag : Client → Daemon → Client × Daemon
  call_untag = check_and_call_label (proto_untag host client_id M now)

  abbrev pub call_set_label : Client → Daemon → Client × Daemon
  call_set_label = check_and_call_label proto_set_label
