-- ===== src/Examples/Light.antt =====
-- The parameters of a call of set_light_from_hsbk, and the theorem on them.
use lightsd.Common.{ℕ, ◌≡◌, refl, List, [], ◌∷◌, true, none, some, arith, zero, suc, get_or}
use lightsd.Common.Bytes.{codes}
use lightsd.Common.Int.{pos, to_int}
use lightsd.Jsonrpc.Tokens.{Token, TokenType, token_at, token_bytes}
use lightsd.Jsonrpc.Numbers.{
  float_range_to_uint16, type_float_between_0_and_360, strtol, skip_spaces, digits, type_integer,
}
use lightsd.Jsonrpc.Types.{type_float_between_0_and_1}
use lightsd.Jsonrpc.Numbers.Hue.{NoSign}
use lightsd.Jsonrpc.Schema.{
  Output, Extracted, extract_params, extract_array, array_elements, skip_value,
}
use lightsd.Jsonrpc.Schema.Stored.{some_inj}
use lightsd.Jsonrpc.Client.{Client}
use lightsd.Jsonrpc.Methods.Params.{taken, no_params, parse_int}
use lightsd.Jsonrpc.Methods.Light.{Hsbk, light_schema, parse_hsbk}
use lightsd.Jsonrpc.Methods.Ranges.{InRange, set_light_from_hsbk-InRange}
use lightsd.Examples.Jsonrpc.{tok}

abbrev light_json : List ℕ
light_json = codes "[\"*\",239.5,1,1,3500,100]"

abbrev client : Client
client = record { has_io = true; output = []; json = light_json; current_request = none }

abbrev light_tokens : List Token
light_tokens =
    tok TokenType.array 0 24 6
    ∷ tok TokenType.string 2 3 0
    ∷ tok TokenType.primitive 5 10 0
    ∷ tok TokenType.primitive 11 12 0
    ∷ tok TokenType.primitive 13 14 0
    ∷ tok TokenType.primitive 15 19 0
    ∷ tok TokenType.primitive 20 23 0
    ∷ []

abbrev light_out : Output
light_out = record {
  values = some 1 ∷ some 2 ∷ some 3 ∷ some 4 ∷ some 5 ∷ some 6 ∷ [];
  counts = 1 ∷ [];
}

-- The arguments of lgtd_proto_set_light_from_hsbk.
abbrev light_args : Hsbk
light_args = record {
  hue = float_range_to_uint16 (codes "239.5") 360;
  saturation = float_range_to_uint16 (codes "1") 1;
  brightness = float_range_to_uint16 (codes "1") 1;
  kelvin = pos 3500;
  transition = pos 100;
}

extracted :
    extract_params light_schema light_json light_tokens 7 (no_params 6) ≡ Extracted.valid light_out
unfolding extract_params extract_array array_elements skip_value type_float_between_0_and_360 strtol
    skip_spaces digits type_float_between_0_and_1 type_integer
extracted = refl

parsed : parse_hsbk client light_tokens light_out ≡ taken light_args
unfolding parse_hsbk parse_int to_int strtol skip_spaces digits
parsed = refl

hue_NoSign :
    (ti : ℕ)
    → get_or light_out.values 1 none ≡ some ti
    → NoSign (token_bytes light_json (token_at light_tokens ti))
hue_NoSign zero e = absurd (let f = some_inj e in omega arith)
hue_NoSign (suc zero) e = absurd (let f = some_inj e in omega arith)
hue_NoSign (suc (suc zero)) e =
    (omega arith, (omega arith, (omega arith, (omega arith, (omega arith, tt)))))
hue_NoSign (suc (suc (suc ti))) e = absurd (let f = some_inj e in omega arith)

set_light_from_hsbk-InRange_example : InRange light_args
set_light_from_hsbk-InRange_example =
    set_light_from_hsbk-InRange client light_tokens 7 light_out light_args extracted hue_NoSign
      parsed
