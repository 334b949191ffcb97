-- ===== src/Jsonrpc/Methods/Params.antt =====
-- What the methods of jsonrpc.c that have more parameters than targets share: the tests of the parameters,
-- and the targets behind them. A pointer to a parameter is NULL although its node is not optional when the
-- tokens ended too early; the source reads through it, and nothing follows that here.
use Prim.Native.String.{String}
use lightsd.Common.{ℕ, List, [], ◌∷◌, Bool, not, ◌&&◌, none, some, get_or, replicate, if◌then◌else◌}
use lightsd.Common.Bytes.{codes}
use lightsd.Common.Int.{ℤ, pos, to_int, ltb_ℤ, leb_ℤ}
use lightsd.Jsonrpc.Tokens.{Token, token_at, token_bytes}
use lightsd.Jsonrpc.Numbers.{strtol}
use lightsd.Jsonrpc.Schema.{Node, Output, Extracted, extract_params}
use lightsd.Jsonrpc.Client.{Client}
use lightsd.Jsonrpc.Methods.{
  Daemon, Targets, params_of, invalid_params, target_list_of, with_targets,
}

-- LGTD_JSONRPC_NODE of a parameter that is one value.
abbrev pub value_node : String → ℕ → (Token → List ℕ → Bool) → Bool → Node
value_node key slot type_cmp optional = record {
  key = codes key;
  value_slot = some slot;
  ntokens_slot = none;
  type_cmp = type_cmp;
  optional = optional;
}

-- A struct of so many NULL pointers and a count of 0.
abbrev pub no_params : ℕ → Output
no_params n = record { values = replicate n none; counts = 0 ∷ [] }

-- What the tests of the parameters come to: a NULL pointer is read, "Invalid parameters" is answered, or
-- a value is taken.
pub data Taken {ℓ} (A : Type ℓ) : Type ℓ where
  null refused : Taken A
  taken : A → Taken A

infixl 5 ◌>>=◌
abbrev pub ◌>>=◌ {ℓ κ} : {A : Type ℓ} {B : Type κ} → Taken A → (A → Taken B) → Taken B
null >>= f = null
refused >>= f = refused
taken a >>= f = f a

-- The text of a parameter.
abbrev pub param_text : Client → List Token → Output → ℕ → Taken (List ℕ)
param_text client tokens out slot = elim (get_or out.values slot none) [
  | none ↦ null
  | some ti ↦ taken (token_bytes client.json (token_at tokens ti))
]

-- An int that strtol reads, with the test on it and on errno.
unfoldable pub parse_int : (ℤ → Bool) → List ℕ → Taken ℤ
parse_int accepts s =
    let p = strtol s in
    if accepts (to_int p.value) && not p.out_of_range then taken (to_int p.value) else refused

abbrev pub is_kelvin : ℤ → Bool
is_kelvin k = leb_ℤ (pos 2500) k && leb_ℤ k (pos 9000)

abbrev pub is_natural : ℤ → Bool
is_natural t = leb_ℤ (pos 0) t

abbrev pub is_positive : ℤ → Bool
is_positive t = ltb_ℤ (pos 0) t

-- The targets behind the other parameters, and then the function of core/proto.c.
abbrev pub call_taken {ℓ} :
    {A : Type ℓ}
    → Taken A
    → (A → Client → Daemon → List (List ℕ) → Client × Daemon)
    → Client
    → Daemon
    → Targets
    → Client × Daemon
call_taken null proto_method client daemon targets = (client, daemon)
call_taken refused proto_method client daemon targets = (invalid_params client, daemon)
call_taken (taken args) proto_method client daemon targets =
    with_targets (proto_method args) daemon targets

-- What follows the extraction, with what is taken from the output.
abbrev pub after_extraction {ℓ} :
    {A : Type ℓ}
    → (List Token → Output → Taken A)
    → (A → Client → Daemon → List (List ℕ) → Client × Daemon)
    → Client
    → Daemon
    → List Token
    → Extracted
    → Client × Daemon
after_extraction parse proto_method client daemon tokens Extracted.exhausted = (client, daemon)
after_extraction parse proto_method client daemon tokens (Extracted.invalid out) =
    (invalid_params client, daemon)
after_extraction parse proto_method client daemon tokens (Extracted.valid out) =
    call_taken (parse tokens out) proto_method client daemon
      (target_list_of client tokens daemon.memory (Extracted.valid out))

-- The functions lgtd_jsonrpc_check_and_call_*, by their schema and the size of their struct.
unfoldable pub check_params_and_call {ℓ} :
    {A : Type ℓ}
    → List Node
    → ℕ
    → (Client → List Token → Output → Taken A)
    → (A → Client → Daemon → List (List ℕ) → Client × Daemon)
    → Client
    → Daemon
    → Client × Daemon
check_params_and_call schema size parse proto_method client daemon =
    let (tokens, ntokens) = params_of client.current_request in
    after_extraction (parse client) proto_method client daemon tokens
      (extract_params schema client.json tokens ntokens (no_params size))
