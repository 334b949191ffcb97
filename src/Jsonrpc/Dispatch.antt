-- ===== src/Jsonrpc/Dispatch.antt =====
-- lgtd_jsonrpc_dispatch_request: requests and batches of them, with the table of the methods. What a
-- method does to the daemon is a parameter here: a function on the client and on a state `S`.
pub mod Parts
pub mod One
pub mod Member
pub mod Texts
pub mod Batch
use Prim.Native.String.{String}
use lightsd.Common.{
  ℕ, zero, suc, ◌+◌, ◌-◌, List, [], ◌∷◌, Bool, true, false, not, ◌||◌, Option, none, some, get_or,
  drop, ltb, ◌==◌, if◌then◌else◌,
}
use lightsd.Common.Bytes.{same_bytes, codes}
use lightsd.Jsonrpc.Tokens.{
  Token, TokenType, token_at, token_bytes, is_object, is_array, consume_object_or_array,
}
use lightsd.Jsonrpc.Schema.{is_some}
use lightsd.Jsonrpc.Request.{Checked, check_and_extract_request}
use lightsd.Jsonrpc.Client.{Request, Client, ErrorCode, write_string, send_error}

abbrev pub MethodHandler : Type 0 → Type 0
MethodHandler S = Client → S → Client × S

-- struct lgtd_jsonrpc_method
pub record Method (S : Type 0) : Type 0 where
  pub name : List ℕ
  pub method : MethodHandler S

-- The handlers of the table.
pub record Handlers (S : Type 0) : Type 0 where
  pub power_on : MethodHandler S
  pub power_off : MethodHandler S
  pub power_toggle : MethodHandler S
  pub set_light_from_hsbk : MethodHandler S
  pub set_waveform : MethodHandler S
  pub get_light_state : MethodHandler S
  pub tag : MethodHandler S
  pub untag : MethodHandler S
  pub set_label : MethodHandler S

abbrev pub methods : {S : Type 0} → Handlers S → List (Method S)
methods h =
    record { name = codes "power_on"; method = h.power_on }
    ∷ record { name = codes "power_off"; method = h.power_off }
    ∷ record { name = codes "power_toggle"; method = h.power_toggle }
    ∷ record { name = codes "set_light_from_hsbk"; method = h.set_light_from_hsbk }
    ∷ record { name = codes "set_waveform"; method = h.set_waveform }
    ∷ record { name = codes "get_light_state"; method = h.get_light_state }
    ∷ record { name = codes "tag"; method = h.tag }
    ∷ record { name = codes "untag"; method = h.untag }
    ∷ record { name = codes "set_label"; method = h.set_label }
    ∷ []

unfoldable pub find_method : {S : Type 0} → List (Method S) → List ℕ → Option (MethodHandler S)
find_method [] name = none
find_method (m ∷ ms) name = if same_bytes m.name name then some m.method else find_method ms name

-- lgtd_jsonrpc_batch_prepare_next_part; `none` is no batch.
unfoldable pub batch_prepare_next_part : Client → Option ℕ → Client
batch_prepare_next_part client none = client
batch_prepare_next_part client (some batch_sent) =
    if batch_sent == 1
    then write_string client "["
    else if not (batch_sent == 0)
    then write_string client ","
    else client

abbrev pub method_name : List ℕ → Request → List ℕ
method_name json request = elim request.method [
  | none ↦ []
  | some ti ↦ token_bytes json (token_at request.tokens ti)
]

-- What a dispatch leaves and returns.
pub record Dispatched (S : Type 0) : Type 0 where
  pub client : Client
  pub state : S
  pub batch_sent : Option ℕ
  pub request_ntokens : ℕ

abbrev pub one_more : Option ℕ → Option ℕ
one_more none = none
one_more (some batch_sent) = some (batch_sent + 1)

abbrev pub one_less : Option ℕ → Option ℕ
one_less none = none
one_less (some batch_sent) = some (batch_sent - 1)

-- A member of a batch that is no object: the error, and the token behind the member.
unfoldable pub refuse_member : Client → List Token → ℕ → ℕ → ℕ → Option (Client × ℕ)
refuse_member client tokens ti parsed batch_sent =
    let started = batch_prepare_next_part client (some batch_sent) in
    let client' = send_error started ErrorCode.invalid_request (codes "Invalid request") in
    if is_array (token_at tokens ti).type
    then (elim (consume_object_or_array tokens ti parsed) [
      | none ↦ none
      | some next ↦ some (client', next)
    ])
    else some (client', ti + 1)

module _ {S : Type 0} (handlers : Handlers S) where
  -- A request that has no id: nothing of what the method writes reaches the client.
  unfoldable pub notify : MethodHandler S → Client → S → Request → Option ℕ → Dispatched S
  notify method client state request batch_sent =
      let muted : Client = record client { has_io = false; current_request = some request } in
      let (client', state') = method muted state in
      record {
        client = record client' { has_io = client.has_io; current_request = none };
        state = state';
        batch_sent = one_less batch_sent;
        request_ntokens = request.request_ntokens;
      }

  unfoldable pub reply : MethodHandler S → Client → S → Request → Option ℕ → Dispatched S
  reply method client state request batch_sent =
      let current : Client = record client { current_request = some request } in
      let (client', state') = method (batch_prepare_next_part current batch_sent) state in
      record {
        client = record client' { current_request = none };
        state = state';
        batch_sent = batch_sent;
        request_ntokens = request.request_ntokens;
      }

  -- The end of lgtd_jsonrpc_dispatch_one from the label `error` on.
  unfoldable pub fail : Client → S → Request → ErrorCode → String → Option ℕ → Dispatched S
  fail client state request error_code error_msg batch_sent =
      let current : Client = record client { current_request = some request } in
      let started = batch_prepare_next_part current batch_sent in
      let client' = send_error started error_code (codes error_msg) in
      record {
        client = record client' { current_request = none };
        state = state;
        batch_sent = batch_sent;
        request_ntokens = request.request_ntokens;
      }

  unfoldable pub call : Option (MethodHandler S) → Client → S → Request → Option ℕ → Dispatched S
  call none client state request batch_sent =
      fail client state request ErrorCode.method_not_found "Method not found" batch_sent
  call (some method) client state request batch_sent =
      if is_some request.id
      then reply method client state request batch_sent
      else notify method client state request batch_sent

  -- lgtd_jsonrpc_dispatch_one
  unfoldable pub dispatch_one : Client → S → List Token → ℕ → Option ℕ → Option (Dispatched S)
  dispatch_one client state tokens ntokens batch_sent =
      let sent : Option ℕ = one_more batch_sent in
      elim (check_and_extract_request tokens ntokens client.json) [
        | Checked.exhausted ↦ none
        | Checked.refused request ↦ elim (consume_object_or_array tokens 0 ntokens) [
          | none ↦ none
          | some n ↦ some (
              fail client state (record request { request_ntokens = n }) ErrorCode.invalid_request
                "Invalid request" sent)
        ]
        | Checked.accepted request ↦ some (
            call (find_method (methods handlers) (method_name client.json request)) client state
              request sent)
      ]

  -- The loop over a batch from the token `ti` on, and the bracket at its end.
  unfoldable pub dispatch_batch : ℕ → Client → S → List Token → ℕ → ℕ → ℕ → Option (Client × S)
  dispatch_batch zero client state tokens ti parsed batch_sent = none
  dispatch_batch (suc fuel) client state tokens ti parsed batch_sent = elim (ltb ti parsed) [
    | false ↦ some (if not (batch_sent == 0) then write_string client "]" else client, state)
    | true ↦ elim (is_object (token_at tokens ti).type) [
      | true ↦ elim (dispatch_one client state (drop ti tokens) (parsed - ti) (some batch_sent)) [
        | none ↦ none
        | some d ↦
            dispatch_batch fuel d.client d.state tokens (ti + d.request_ntokens) parsed
              (elim d.batch_sent [ none ↦ batch_sent | some n ↦ n ])
      ]
      | false ↦ elim (refuse_member client tokens ti parsed (batch_sent + 1)) [
        | none ↦ none
        | some (client', next) ↦
            dispatch_batch fuel client' state tokens next parsed (batch_sent + 1)
      ]
    ]
  ]

  -- lgtd_jsonrpc_dispatch_request. A member of a batch is a token at least.
  unfoldable pub dispatch_request : Client → S → List Token → ℕ → Option (Client × S)
  dispatch_request client state tokens parsed =
      if (parsed == 0) || ((token_at tokens 0).size == 0)
      then some (send_error client ErrorCode.invalid_request (codes "Invalid request"), state)
      else if not (is_array (token_at tokens 0).type)
      then (elim (dispatch_one client state tokens parsed none) [
        | none ↦ none
        | some d ↦ some (d.client, d.state)
      ])
      else dispatch_batch (parsed + 1) client state tokens 1 parsed 0
