-- ===== src/Examples/Jsonrpc.antt =====
-- Requests with their tokens, and the theorems on JSON-RPC applied to them.
use mathlib.Core.List.{◌++◌}
use lightsd.Common.{ℕ, ◌+◌, ◌≡◌, refl, List, [], ◌∷◌, true, none, some}
use lightsd.Common.Bytes.{codes, same_bytes}
use lightsd.Jsonrpc.Tokens.{Token, TokenType}
use lightsd.Jsonrpc.Schema.{
  extract_dict, dict_members, store_value, match_key, skip_value, none_missing,
}
use lightsd.Jsonrpc.Client.{Request, Client, send_response}
use lightsd.Jsonrpc.Request.{check_and_extract_request, Checked}
use lightsd.Jsonrpc.Answers.{Answer, answer_text, id_text, send_response-answer}
use lightsd.Jsonrpc.Dispatch.{MethodHandler, Handlers, find_method, dispatch_one}
use lightsd.Jsonrpc.Dispatch.Parts.{Answers}
use lightsd.Jsonrpc.Dispatch.One.{dispatch_one-notification}

abbrev pub tok : TokenType → ℕ → ℕ → ℕ → Token
tok type start end size = record { type = type; start = start; end = end; size = size }

-- A batch of a notification and a number.
abbrev pub batch_json : List ℕ
batch_json = codes "[{\"jsonrpc\":\"2.0\",\"method\":\"tag\"},7]"

abbrev pub notify_tokens : List Token
notify_tokens =
    tok TokenType.object 1 33 2
    ∷ tok TokenType.string 3 10 1
    ∷ tok TokenType.string 13 16 0
    ∷ tok TokenType.string 19 25 1
    ∷ tok TokenType.string 28 31 0
    ∷ []

abbrev pub batch_tokens : List Token
batch_tokens =
    (tok TokenType.array 0 36 2 ∷ notify_tokens) ++ (tok TokenType.primitive 34 35 0 ∷ [])

abbrev client : Client
client = record { has_io = true; output = []; json = batch_json; current_request = none }

abbrev notified : Request
notified = record {
  tokens = notify_tokens;
  method = some 4;
  params = none;
  params_ntokens = 0;
  id = none;
  request_ntokens = 5;
}

-- A method that answers true and counts its calls.
abbrev counting : MethodHandler ℕ
counting c calls = (send_response c (codes "true"), calls + 1)

counting-Answers : Answers counting
counting-Answers c calls =
    (answer_text (Answer.result (id_text c) (codes "true")), send_response-answer c (codes "true"))

abbrev handlers : Handlers ℕ
handlers = record {
  power_on = counting;
  power_off = counting;
  power_toggle = counting;
  set_light_from_hsbk = counting;
  set_waveform = counting;
  get_light_state = counting;
  tag = counting;
  untag = counting;
  set_label = counting;
}

checked : check_and_extract_request notify_tokens 5 batch_json ≡ Checked.accepted notified
unfolding check_and_extract_request extract_dict dict_members store_value match_key same_bytes
    skip_value none_missing
checked = refl

dispatch_one-notification_example :
    dispatch_one handlers client 0 notify_tokens 5 (some 0)
    ≡ some (record { client = client; state = 1; batch_sent = some 0; request_ntokens = 5 })
unfolding find_method same_bytes
dispatch_one-notification_example =
    dispatch_one-notification handlers counting client 0 notify_tokens 5 0 notified checked refl
      refl counting-Answers
