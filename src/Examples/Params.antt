-- ===== src/Examples/Params.antt =====
-- Parameters with their tokens, and the theorems on schemas, tokens and numbers applied to them.
use lightsd.Common.{
  ℕ, ◌+◌, ◌≡◌, ◌<◌, ◌≤◌, refl, List, [], ◌∷◌, true, false, Option, none, some, arith, zero, suc,
  get_or, Any, length,
}
use lightsd.Common.Bytes.{codes, same_bytes}
use lightsd.Jsonrpc.Tokens.{Token, TokenType, token_bytes, consume_object_or_array}
use lightsd.Jsonrpc.Tokens.Steps.{consume_object_or_array-ends}
use lightsd.Jsonrpc.Tokens.Tree.{
  Value, scalar, arr, cons, nil, flatten, items_count, consume_object_or_array-flatten,
}
use lightsd.Jsonrpc.Types.{
  type_string, type_string_number_or_array, type_float_between_0_and_1, float_chars,
}
use lightsd.Jsonrpc.Schema.{
  Node, Output, Extracted, extract_dict, extract_array, extract_params, value_in, dict_members,
  store_value, match_key, skip_value, none_missing,
}
use lightsd.Jsonrpc.Schema.Dict.{Sound, Supplied, extract_dict-Supplied}
use lightsd.Jsonrpc.Schema.Array.{extract_params-Sound}
use lightsd.Jsonrpc.Schema.Positional.{extract_array-too_few}
use lightsd.Jsonrpc.Schema.Stored.{Accepts, none-some, some_inj}
use lightsd.Jsonrpc.Request.{request_schema, blank_request}
use lightsd.Common.Int.{pos}
use lightsd.Jsonrpc.Numbers.{float_range_to_uint16}
use lightsd.Jsonrpc.Numbers.Range.{float_range_to_uint16-bounded}
use lightsd.Jsonrpc.Numbers.{type_float_between_0_and_360, strtol, skip_spaces, digits}
use lightsd.Jsonrpc.Numbers.Hue.{float_range_to_uint16-hue}
use lightsd.Examples.Jsonrpc.{tok, notify_tokens, batch_json, batch_tokens}

-- The parameters of `tag`: a target and a label.
abbrev target_node : Node
target_node = record {
  key = codes "target";
  value_slot = some 0;
  ntokens_slot = some 0;
  type_cmp = type_string_number_or_array;
  optional = false;
}

abbrev label_node : Node
label_node = record {
  key = codes "label";
  value_slot = some 1;
  ntokens_slot = none;
  type_cmp = type_string;
  optional = false;
}

abbrev blank : Output
blank = record { values = none ∷ none ∷ []; counts = 0 ∷ [] }

-- A list with a target alone.
abbrev positional_json : List ℕ
positional_json = codes "[\"*\"]"

abbrev positional_tokens : List Token
positional_tokens = tok TokenType.array 0 5 1 ∷ tok TokenType.string 2 3 0 ∷ []

other_slot : ¬ (◌≡◌ {A = Option ℕ} (some 0) (some 1))
other_slot e = let f = some_inj e in omega arith

extract_array-too_few_example :
    (out' : Output) × (extract_array
        (target_node ∷ label_node ∷ [])
        positional_json
        positional_tokens
        2
        blank
      ≡ Extracted.valid out')
    × (value_in out' (some 1) ≡ none)
extract_array-too_few_example =
    extract_array-too_few positional_json positional_tokens label_node 1 [] (target_node ∷ []) blank
      refl refl refl (refl, refl, tt) (other_slot, tt)

blank-empty :
    (slot ti : ℕ)
    → get_or blank.values slot none ≡ some ti
    → Any (Accepts positional_json positional_tokens slot ti) (target_node ∷ label_node ∷ [])
blank-empty zero ti e = absurd (none-some e)
blank-empty (suc zero) ti e = absurd (none-some e)
blank-empty (suc (suc slot)) ti e = absurd (none-some e)

extract_params-Sound_example :
    Sound
      (target_node ∷ label_node ∷ [])
      positional_json
      positional_tokens
      (extract_params (target_node ∷ label_node ∷ []) positional_json positional_tokens 2 blank)
extract_params-Sound_example =
    extract_params-Sound (target_node ∷ label_node ∷ []) positional_json positional_tokens 2 blank
      blank-empty

extract_dict-Supplied_example :
    Supplied request_schema (record { values = some 4 ∷ none ∷ none ∷ []; counts = 0 ∷ [] })
unfolding extract_dict dict_members store_value match_key same_bytes skip_value none_missing
extract_dict-Supplied_example =
    extract_dict-Supplied request_schema batch_json notify_tokens 5 blank_request
      (record { values = some 4 ∷ none ∷ none ∷ []; counts = 0 ∷ [] }) refl

consume_object_or_array-ends_example :
    (next : ℕ) × (consume_object_or_array batch_tokens 1 7 ≡ some next) × (1 < next)
consume_object_or_array-ends_example = consume_object_or_array-ends batch_tokens 1 7

-- The same list as a value.
abbrev positional : Value
positional = arr 0 5 (cons (scalar true 2 3) nil)

consume_object_or_array-flatten_example :
    consume_object_or_array positional_tokens 0 2 ≡ some (0 + length (flatten positional))
unfolding flatten items_count
consume_object_or_array-flatten_example =
    consume_object_or_array-flatten positional positional_tokens 0 2 tt ([], refl) (omega arith)

-- The token of a number between 0 and 1.
abbrev half : List ℕ
half = codes "0.5"

float_range_to_uint16-bounded_example :
    (n : ℕ) × (float_range_to_uint16 (token_bytes half (tok TokenType.primitive 0 3 0)) 1 ≡ pos n)
    × (n ≤ 65535)
unfolding type_float_between_0_and_1 float_chars
float_range_to_uint16-bounded_example =
    float_range_to_uint16-bounded (tok TokenType.primitive 0 3 0) half refl

-- The token of a hue.
abbrev blue : List ℕ
blue = codes "239.5"

float_range_to_uint16-hue_example :
    (n : ℕ) × (float_range_to_uint16 (token_bytes blue (tok TokenType.primitive 0 5 0)) 360 ≡ pos n)
    × (n ≤ 65535)
unfolding type_float_between_0_and_360 strtol skip_spaces digits
float_range_to_uint16-hue_example =
    float_range_to_uint16-hue (tok TokenType.primitive 0 5 0) blue
      (omega arith, (omega arith, (omega arith, (omega arith, (omega arith, tt))))) refl
