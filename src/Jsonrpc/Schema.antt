-- ===== src/Jsonrpc/Schema.antt =====
-- The values of a request or of its parameters, found by a schema. An output struct is its slots: where
-- the source has the offset of a `const jsmntok_t *` or of an int, a node has the number of a slot, and
-- a pointer to a token is the token's index, with `none` for NULL and for an offset of -1.
pub mod Stored
pub mod Dict
pub mod Array
pub mod Positional
use lightsd.Common.{
  ℕ, zero, suc, ◌+◌, ◌-◌, List, [], ◌∷◌, Bool, true, false, not, ◌&&◌, ◌||◌, Option, none, some,
  get_or, set, ltb, ◌==◌, if◌then◌else◌,
}
use lightsd.Common.Bytes.{same_bytes}
use lightsd.Jsonrpc.Tokens.{
  Token, TokenType, token_at, token_bytes, is_object, is_array, is_string, is_container,
  consume_object_or_array,
}

-- struct lgtd_jsonrpc_node
pub record Node : Type 0 where
  pub key : List ℕ
  pub value_slot : Option ℕ
  pub ntokens_slot : Option ℕ
  pub type_cmp : Token → List ℕ → Bool
  pub optional : Bool

pub record Output : Type 0 where
  pub values : List (Option ℕ)
  pub counts : List ℕ

-- `false` or `true`, with the output, which keeps what was stored before a failure. `exhausted` means
-- that the fuel ran out.
pub data Extracted : Type 0 where
  exhausted : Extracted
  invalid valid : Output → Extracted

abbrev pub value_in : Output → Option ℕ → Option ℕ
value_in out none = none
value_in out (some slot) = get_or out.values slot none

-- LGTD_JSONRPC_SET_JSMNTOK and LGTD_JSONRPC_SET_NTOKENS, unless the offset is -1.
abbrev pub set_value : Output → Option ℕ → ℕ → Output
set_value out none ti = out
set_value out (some slot) ti = record out { values = set out.values slot (some ti) }

abbrev pub set_count : Output → Option ℕ → ℕ → Output
set_count out none count = out
set_count out (some slot) count = record out { counts = set out.counts slot count }

abbrev pub is_some {ℓ} : {A : Type ℓ} → Option A → Bool
is_some none = false
is_some (some a) = true

-- The search of a key among the nodes.
unfoldable pub match_key : List Node → List ℕ → Option Node
match_key [] key = none
match_key (node ∷ schema) key = if same_bytes node.key key then some node else match_key schema key

-- Behind a value: an object or an array is stepped over.
unfoldable pub skip_value : List Token → ℕ → ℕ → Option ℕ
skip_value tokens ti ntokens = elim (is_container (token_at tokens ti).type) [
  | true ↦ consume_object_or_array tokens ti ntokens
  | false ↦ some (ti + 1)
]

-- What is done at a value whose key is that of a node, or of none: `none` is a value that is refused.
unfoldable pub store_value : List ℕ → List Token → Option Node → ℕ → Output → Option Output
store_value json tokens none ti out = some out
store_value json tokens (some node) ti out =
    if not (node.type_cmp (token_at tokens ti) json)
    then none
    else (if is_some (value_in out node.value_slot)
        then none
        else some (set_value out node.value_slot ti))

abbrev pub count_slot : Option Node → Option ℕ
count_slot none = none
count_slot (some node) = node.ntokens_slot

-- The first loop, from the token `ti` on.
unfoldable pub dict_members : ℕ → List Node → List ℕ → List Token → ℕ → ℕ → Output → Extracted
dict_members zero schema json tokens ntokens ti out = Extracted.exhausted
dict_members (suc fuel) schema json tokens ntokens ti out =
    elim (ltb ti ntokens && is_string (token_at tokens ti).type) [
      | false ↦ Extracted.valid out
      | true ↦
          let node : Option Node = match_key schema (token_bytes json (token_at tokens ti)) in
          elim (store_value json tokens node (ti + 1) out) [
            | none ↦ Extracted.invalid out
            | some out' ↦ elim (skip_value tokens (ti + 1) ntokens) [
              | none ↦ Extracted.exhausted
              | some next ↦
                  dict_members fuel schema json tokens ntokens next
                    (set_count out' (count_slot node) (next - (ti + 1)))
            ]
          ]
    ]

-- The second loop: is a value there for each node that must have one?
unfoldable pub none_missing : List Node → Output → Bool
none_missing [] out = true
none_missing (node ∷ schema) out =
    (node.optional || (not (is_some node.value_slot) || is_some (value_in out node.value_slot)))
    && none_missing schema out

abbrev pub require : List Node → Extracted → Extracted
require schema (Extracted.valid out) =
    if none_missing schema out then Extracted.valid out else Extracted.invalid out
require schema other = other

-- lgtd_jsonrpc_extract_values_from_schema_and_dict. A round takes a key at least.
unfoldable pub extract_dict : List Node → List ℕ → List Token → ℕ → Output → Extracted
extract_dict schema json tokens ntokens out =
    if (ntokens == 0) || not (is_object (token_at tokens 0).type)
    then Extracted.invalid out
    else require schema (dict_members (ntokens + 1) schema json tokens ntokens 1 out)

-- The loop over the nodes, with `objsize` elements left in the array from the token `ti` on, and what is
-- returned when it ends.
unfoldable pub array_elements : List Node → List ℕ → List Token → ℕ → ℕ → ℕ → Output → Extracted
array_elements [] json tokens ntokens ti objsize out =
    if objsize == 0 then Extracted.valid out else Extracted.invalid out
array_elements (node ∷ schema) json tokens ntokens ti objsize out =
    if not (ltb ti ntokens)
    then (if (objsize == 0) || node.optional then Extracted.valid out else Extracted.invalid out)
    else if objsize == 0
    then (if node.optional then Extracted.valid out else Extracted.invalid out)
    else if not (node.type_cmp (token_at tokens ti) json)
    then Extracted.invalid out
    else (elim (skip_value tokens ti ntokens) [
      | none ↦ Extracted.exhausted
      | some next ↦
          array_elements schema json tokens ntokens next (objsize - 1)
            (set_count (set_value out node.value_slot ti) node.ntokens_slot (next - ti))
    ])

-- lgtd_jsonrpc_extract_values_from_schema_and_array
unfoldable pub extract_array : List Node → List ℕ → List Token → ℕ → Output → Extracted
extract_array schema json tokens ntokens out =
    if (ntokens == 0) || not (is_array (token_at tokens 0).type)
    then Extracted.invalid out
    else array_elements schema json tokens ntokens 1 (token_at tokens 0).size out

unfoldable pub all_optional : List Node → Bool
all_optional [] = true
all_optional (node ∷ schema) = node.optional && all_optional schema

abbrev pub extract_typed : List Node → List ℕ → List Token → ℕ → Output → TokenType → Extracted
extract_typed schema json tokens ntokens out TokenType.object =
    extract_dict schema json tokens ntokens out
extract_typed schema json tokens ntokens out TokenType.array =
    extract_array schema json tokens ntokens out
extract_typed schema json tokens ntokens out _ = Extracted.invalid out

-- lgtd_jsonrpc_extract_and_validate_params_against_schema
unfoldable pub extract_params : List Node → List ℕ → List Token → ℕ → Output → Extracted
extract_params schema json tokens ntokens out =
    if ntokens == 0
    then (if all_optional schema then Extracted.valid out else Extracted.invalid out)
    else extract_typed schema json tokens ntokens out (token_at tokens 0).type
