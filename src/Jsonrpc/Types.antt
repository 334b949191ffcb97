-- ===== src/Jsonrpc/Types.antt =====
-- The tests that jsonrpc.c makes on the type of a value. Characters are their ASCII codes.
use lightsd.Common.{
  ℕ, ◌-◌, List, [], ◌∷◌, Bool, true, false, not, ◌&&◌, ◌||◌, leb, ◌==◌, get_or, take, drop,
  if◌then◌else◌, min,
}
use lightsd.Common.Bytes.{same_bytes, codes}
use lightsd.Jsonrpc.Tokens.{Token, is_object, is_array, is_string, is_primitive}

abbrev pub is_digit : ℕ → Bool
is_digit c = leb b'0' c && leb c b'9'

abbrev pub char_at : List ℕ → ℕ → ℕ
char_at json i = get_or json i 0

-- lgtd_jsonrpc_type_number
abbrev pub type_number : Token → List ℕ → Bool
type_number t json =
    is_primitive t.type && ((char_at json t.start == b'-') || is_digit (char_at json t.start))

-- lgtd_jsonrpc_type_bool
abbrev pub type_bool : Token → List ℕ → Bool
type_bool t json =
    is_primitive t.type && ((char_at json t.start == b't') || (char_at json t.start == b'f'))

-- lgtd_jsonrpc_type_null: what memcmp returns is `false` when the bytes are the same.
abbrev pub type_null : Token → List ℕ → Bool
type_null t json =
    let n : ℕ = min t.size 5 in
    not (same_bytes (take n (drop t.start json)) (take n (codes "null\0")))

-- lgtd_jsonrpc_type_string
abbrev pub type_string : Token → List ℕ → Bool
type_string t json = is_string t.type

-- lgtd_jsonrpc_type_array
abbrev pub type_array : Token → List ℕ → Bool
type_array t json = is_array t.type

-- lgtd_jsonrpc_type_object
abbrev pub type_object : Token → List ℕ → Bool
type_object t json = is_object t.type

-- lgtd_jsonrpc_type_object_or_array
abbrev pub type_object_or_array : Token → List ℕ → Bool
type_object_or_array t json = is_object t.type || is_array t.type

-- lgtd_jsonrpc_type_string_number_or_null
abbrev pub type_string_number_or_null : Token → List ℕ → Bool
type_string_number_or_null t json = type_number t json || (type_null t json || type_string t json)

-- lgtd_jsonrpc_type_string_or_number
abbrev pub type_string_or_number : Token → List ℕ → Bool
type_string_or_number t json = type_string t json || type_number t json

-- lgtd_jsonrpc_type_string_number_or_array
abbrev pub type_string_number_or_array : Token → List ℕ → Bool
type_string_number_or_array t json = type_string t json || (type_number t json || type_array t json)

-- The loop of lgtd_jsonrpc_type_float_between_0_and_1 over the characters of the token.
unfoldable pub float_chars : List ℕ → Bool → Bool → Bool
float_chars [] dot_seen first_digit_is_one = true
float_chars (c ∷ cs) dot_seen first_digit_is_one =
    let rest =
      float_chars cs (dot_seen || (c == b'.'))
        (first_digit_is_one || (not dot_seen && (c == b'1'))) in
    if c == b'.'
    then (if dot_seen then false else rest)
    else if dot_seen
    then (if not (is_digit c)
        then false
        else if first_digit_is_one && not (c == b'0')
        then false
        else rest)
    else if first_digit_is_one
    then false
    else if c == b'1'
    then rest
    else if not (c == b'0')
    then false
    else rest

-- lgtd_jsonrpc_type_float_between_0_and_1
unfoldable pub type_float_between_0_and_1 : Token → List ℕ → Bool
unfolding float_chars
type_float_between_0_and_1 t json =
    is_primitive t.type && float_chars (take (t.end - t.start) (drop t.start json)) false false
