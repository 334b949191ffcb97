-- ===== src/Jsonrpc/Request.antt =====
-- lgtd_jsonrpc_check_and_extract_request: the members of a request.
use lightsd.Common.{ℕ, ◌+◌, List, [], ◌∷◌, true, false, none, some, get_or, if◌then◌else◌}
use lightsd.Common.Bytes.{codes}
use lightsd.Jsonrpc.Tokens.{Token}
use lightsd.Jsonrpc.Types.{type_string, type_object_or_array, type_string_number_or_null}
use lightsd.Jsonrpc.Schema.{Node, Output, Extracted, extract_dict, is_some}
use lightsd.Jsonrpc.Client.{Request}

-- The slots of a request.
abbrev pub method_slot : ℕ
method_slot = 0

abbrev pub params_slot : ℕ
params_slot = 1

abbrev pub id_slot : ℕ
id_slot = 2

abbrev pub request_schema : List Node
request_schema =
    record {
      key = codes "jsonrpc";
      value_slot = none;
      ntokens_slot = none;
      type_cmp = type_string;
      optional = false;
    }
    ∷ record {
      key = codes "method";
      value_slot = some method_slot;
      ntokens_slot = none;
      type_cmp = type_string;
      optional = false;
    }
    ∷ record {
      key = codes "params";
      value_slot = some params_slot;
      ntokens_slot = some 0;
      type_cmp = type_object_or_array;
      optional = true;
    }
    ∷ record {
      key = codes "id";
      value_slot = some id_slot;
      ntokens_slot = none;
      type_cmp = type_string_number_or_null;
      optional = true;
    }
    ∷ []

abbrev pub blank_request : Output
blank_request = record { values = none ∷ none ∷ none ∷ []; counts = 0 ∷ [] }

abbrev pub request_of : List Token → Output → Request
request_of tokens out = record {
  tokens = tokens;
  method = get_or out.values method_slot none;
  params = get_or out.values params_slot none;
  params_ntokens = get_or out.counts 0 0;
  id = get_or out.values id_slot none;
  request_ntokens = 0;
}

-- The object itself, jsonrpc and method, and the members that are there.
abbrev pub count_tokens : Request → ℕ
count_tokens request =
    (1 + 2 + 2)
    + (if is_some request.params then 1 + request.params_ntokens else 0)
    + (if is_some request.id then 2 else 0)

-- The request that is left, with whether it is valid.
pub data Checked : Type 0 where
  exhausted : Checked
  refused accepted : Request → Checked

abbrev pub checked_of : List Token → Extracted → Checked
checked_of tokens Extracted.exhausted = Checked.exhausted
checked_of tokens (Extracted.invalid out) = Checked.refused (request_of tokens out)
checked_of tokens (Extracted.valid out) =
    Checked.accepted
      (record (request_of tokens out) { request_ntokens = count_tokens (request_of tokens out) })

-- lgtd_jsonrpc_check_and_extract_request
unfoldable pub check_and_extract_request : List Token → ℕ → List ℕ → Checked
check_and_extract_request tokens ntokens json =
    checked_of tokens (extract_dict request_schema json tokens ntokens blank_request)
