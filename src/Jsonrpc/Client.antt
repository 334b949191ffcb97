-- ===== src/Jsonrpc/Client.antt =====
-- A client (core/client.c) as far as answers go, and the functions of jsonrpc.c that write answers.
use mathlib.Core.List.{◌++◌}
use Prim.Native.String.{String}
use lightsd.Common.{ℕ, ◌+◌, ◌-◌, List, Bool, Option, none, some, take, drop, if◌then◌else◌}
use lightsd.Common.Bytes.{codes}
use lightsd.Jsonrpc.Tokens.{Token, token_at, is_string}

-- struct lgtd_jsonrpc_request. A pointer to a token is its index in `tokens`.
pub record Request : Type 0 where
  pub tokens : List Token
  pub method : Option ℕ
  pub params : Option ℕ
  pub params_ntokens : ℕ
  pub id : Option ℕ
  pub request_ntokens : ℕ

-- struct lgtd_client. `has_io` is false while the pointer io is NULL; `output` is what was written to io.
pub record Client : Type 0 where
  pub has_io : Bool
  pub output : List ℕ
  pub json : List ℕ
  pub current_request : Option Request

-- enum lgtd_jsonrpc_error_code
pub data ErrorCode : Type 0 where
  success parse_error invalid_request method_not_found invalid_params internal_error server_error :
      ErrorCode

-- What "%d" makes of a code.
abbrev pub code_text : ErrorCode → String
code_text ErrorCode.success = "0"
code_text ErrorCode.parse_error = "-32700"
code_text ErrorCode.invalid_request = "-32600"
code_text ErrorCode.method_not_found = "-32601"
code_text ErrorCode.invalid_params = "-32602"
code_text ErrorCode.internal_error = "-32603"
code_text ErrorCode.server_error = "-32000"

-- lgtd_client_write_buf; nothing is written when there are no bytes.
unfoldable pub write_buf : Client → List ℕ → Client
write_buf client bytes =
    if client.has_io then record client { output = client.output ++ bytes } else client

-- lgtd_client_write_string
abbrev pub write_string : Client → String → Client
write_string client msg = write_buf client (codes msg)

-- The bytes of the id of a request; those of a string have the quotes around it.
abbrev pub id_bytes : List ℕ → Token → List ℕ
id_bytes json t =
    if is_string t.type
    then take ((t.end + 1) - (t.start - 1)) (drop (t.start - 1) json)
    else take (t.end - t.start) (drop t.start json)

abbrev pub request_id : Option Request → Option Token
request_id none = none
request_id (some request) = elim request.id [
  | none ↦ none
  | some ti ↦ some (token_at request.tokens ti)
]

-- lgtd_jsonrpc_write_id
unfoldable pub write_id : Client → Client
write_id client = elim (request_id client.current_request) [
  | none ↦ write_string client "null"
  | some t ↦ write_buf client (id_bytes client.json t)
]

-- lgtd_jsonrpc_start_send_response
unfoldable pub start_send_response : Client → Client
start_send_response client =
    let c1 = write_string client "{\"jsonrpc\": \"2.0\", \"id\": " in
    let c2 = write_id c1 in write_string c2 ", \"result\": "

-- lgtd_jsonrpc_end_send_response
unfoldable pub end_send_response : Client → Client
end_send_response client = write_string client "}"

-- lgtd_jsonrpc_send_response
unfoldable pub send_response : Client → List ℕ → Client
send_response client result =
    let c1 = write_string client "{\"jsonrpc\": \"2.0\", \"id\": " in
    let c2 = write_id c1 in
    let c3 = write_string c2 ", \"result\": " in let c4 = write_buf c3 result in write_string c4 "}"

-- lgtd_jsonrpc_send_error
unfoldable pub send_error : Client → ErrorCode → List ℕ → Client
send_error client code message =
    let c1 = write_string client "{\"jsonrpc\": \"2.0\", \"id\": " in
    let c2 = write_id c1 in
    let c3 = write_string c2 ", \"error\": {\"code\": " in
    let c4 = write_string c3 (code_text code) in
    let c5 = write_string c4 ", \"message\": \"" in
    let c6 = write_buf c5 message in write_string c6 "\"}}"
