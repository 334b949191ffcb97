-- ===== src/Jsonrpc/Tokens.antt =====
-- The tokens of a JSON text, as jsmn.h has them, and lgtd_jsonrpc_consume_object_or_array, which steps
-- over a value and all that is in it.
pub mod Steps
pub mod Tree
use lightsd.Common.{
  ℕ, zero, suc, ◌+◌, ◌-◌, List, [], ◌∷◌, Bool, true, false, ◌||◌, Option, none, some, get_or, ltb,
  ◌==◌, take, drop,
}

-- jsmntype_t
pub data TokenType : Type 0 where
  undefined object array string primitive : TokenType

-- jsmntok_t
pub record Token : Type 0 where
  pub type : TokenType
  pub start : ℕ
  pub end : ℕ
  pub size : ℕ

-- What a read past the tokens gives.
abbrev pub no_token : Token
no_token = record { type = TokenType.undefined; start = 0; end = 0; size = 0 }

abbrev pub token_at : List Token → ℕ → Token
token_at tokens ti = get_or tokens ti no_token

abbrev pub is_object : TokenType → Bool
is_object TokenType.object = true
is_object _ = false

abbrev pub is_array : TokenType → Bool
is_array TokenType.array = true
is_array _ = false

abbrev pub is_string : TokenType → Bool
is_string TokenType.string = true
is_string _ = false

abbrev pub is_primitive : TokenType → Bool
is_primitive TokenType.primitive = true
is_primitive _ = false

-- lgtd_jsonrpc_type_object_or_array
abbrev pub is_container : TokenType → Bool
is_container type = is_object type || is_array type

-- LGTD_JSONRPC_TOKEN_LEN
abbrev pub token_len : Token → ℕ
token_len t = t.end - t.start

abbrev pub token_bytes : List ℕ → Token → List ℕ
token_bytes json t = take (token_len t) (drop t.start json)

-- A member of an object is a key and a value.
abbrev pub value_index : TokenType → ℕ → ℕ
value_index TokenType.object ti = ti + 1
value_index _ ti = ti

-- The loop of lgtd_jsonrpc_consume_object_or_array, where `objsize` members of a container of this
-- type are left. `none` means that the fuel ran out.
unfoldable pub consume_members : ℕ → List Token → TokenType → ℕ → ℕ → ℕ → Option ℕ
consume_members zero tokens type objsize ti parsed = none
consume_members (suc fuel) tokens type zero ti parsed = some ti
consume_members (suc fuel) tokens type (suc objsize) ti parsed = elim (ltb ti parsed) [
  | false ↦ some ti
  | true ↦
      let vi : ℕ = value_index type ti in
      elim (is_container (token_at tokens vi).type) [
        | false ↦ consume_members fuel tokens type objsize (vi + 1) parsed
        | true ↦
            elim (consume_members fuel tokens (token_at tokens vi).type (token_at tokens vi).size
              (vi + 1) parsed) [
                | none ↦ none
                | some next ↦ consume_members fuel tokens type objsize next parsed
              ]
      ]
]

-- A round goes at least one token on, so that one round for each token and two more are enough.
unfoldable pub consume_object_or_array : List Token → ℕ → ℕ → Option ℕ
consume_object_or_array tokens ti parsed =
    let container : Token = token_at tokens ti in
    consume_members (parsed + 2) tokens container.type container.size (ti + 1) parsed
