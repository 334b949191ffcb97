-- ===== src/Jsonrpc/Methods/Answering.antt =====
-- What the methods tell the client, and when the reading of the targets ends without a word.
use lightsd.Common.{
  ℕ, zero, suc, ◌+◌, ◌-◌, ◌≡◌, ◌≢◌, ◌⊎◌, refl, inl, inr, List, [], Any, Bool, false, none, some,
  Bool-cases, Option-cases, get_or, ◌==◌, if◌then◌else◌, arith,
}
use lightsd.Common.Bytes.{codes}
use lightsd.Jsonrpc.Tokens.{Token, token_at, is_array}
use lightsd.Jsonrpc.Types.{type_string_or_number}
use lightsd.Jsonrpc.Schema.{Node, Output, Extracted, extract_params, value_in}
use lightsd.Jsonrpc.Client.{Client, ErrorCode, write_buf}
use lightsd.Jsonrpc.Answers.{Answer, answer_text, id_text, send_error-answer, send_response-answer}
use lightsd.Jsonrpc.Dispatch.{MethodHandler}
use lightsd.Jsonrpc.Methods.{
  Daemon, Targets, next_memory, build_targets, build_target_list, params_of, target_list_of,
  send_result,
}
use lightsd.Jsonrpc.Methods.Params.{no_params}

-- What a client is told by a method: a result, or one of four errors.
pub data Told : Type 0 where
  result : Bool → Told
  invalid_params no_memory no_device_list no_new_tag : Told

-- The one message that says so, with the id of the current request or null.
abbrev pub told_text : Client → Told → List ℕ
told_text client (Told.result ok) =
    answer_text (Answer.result (id_text client) (if ok then codes "true" else codes "false"))
told_text client Told.invalid_params =
    answer_text
      (Answer.error (id_text client) ErrorCode.invalid_params (codes "Invalid parameters"))
told_text client Told.no_memory =
    answer_text
      (Answer.error (id_text client) ErrorCode.internal_error (codes "Can't allocate memory"))
told_text client Told.no_device_list =
    answer_text
      (Answer.error (id_text client) ErrorCode.internal_error (codes "couldn't allocate memory"))
told_text client Told.no_new_tag =
    answer_text
      (Answer.error (id_text client) ErrorCode.internal_error (codes "couldn't allocate new tag"))

-- One of these messages was written.
abbrev pub Hears : Client → Client → Type 0
Hears client client' = (m : Told) × (client' ≡ write_buf client (told_text client m))

pub Hears-result : (client : Client) (ok : Bool) → Hears client (send_result client ok)
Hears-result client ok =
    (Told.result ok, send_response-answer client (if ok then codes "true" else codes "false"))

-- The target is NULL, has no token, or is no array and has not one token.
abbrev pub NoTargets : List Token → Output → Type 0
NoTargets tokens out =
    (get_or out.values 0 none ≡ none)
    ⊎ ((get_or out.counts 0 0 ≡ 0)
        ⊎ ((target : ℕ) × (get_or out.values 0 none ≡ some target)
            × (is_array (token_at tokens target).type ≡ false)
            × (get_or out.counts 0 0 ≢ 1)))

-- A parameter that is not optional is NULL.
abbrev pub IsMissing : Output → Node → Type 0
IsMissing out node = (node.optional ≡ false) × (value_in out node.value_slot ≡ none)

-- The parameters of the current request are valid by the schema, but one that is not optional is NULL, or
-- the tokens of the target cannot be read.
abbrev pub IsUnreadable : List Node → ℕ → Client → Type 0
IsUnreadable schema size client =
    let params = params_of client.current_request in
    (out : Output) × (extract_params schema client.json params.0 params.1 (no_params size)
      ≡ Extracted.valid out)
    × (NoTargets params.0 out ⊎ Any (IsMissing out) schema)

-- A method tells the client one thing, or writes nothing because the parameters cannot be read.
abbrev pub Reports : List Node → ℕ → MethodHandler Daemon → Type 0
Reports schema size method =
    (client : Client) (daemon : Daemon)
    → Hears client (method client daemon).0
      ⊎ (((method client daemon).0 ≡ client) × IsUnreadable schema size client)

-- Targets, for which nothing was written, or none, with an error.
abbrev Built : Client → Targets → Type 0
Built client (client', none, memory) = Hears client client'
Built client (client', some targets, memory) = client' ≡ client

-- The same, or none without a word.
abbrev pub Listened : Client → List Token → Output → Targets → Type 0
Listened client tokens out (client', none, memory) =
    Hears client client' ⊎ ((client' ≡ client) × NoTargets tokens out)
Listened client tokens out (client', some targets, memory) = client' ≡ client

Built-Listened :
    (client : Client) (tokens : List Token) (out : Output) (r : Targets)
    → Built client r
    → Listened client tokens out r
Built-Listened client tokens out (client', none, memory) h = inl h
Built-Listened client tokens out (client', some targets, memory) h = h

build_targets-Built :
    (client : Client) (tokens : List Token) (first n : ℕ) (targets : List (List ℕ))
    (memory : List Bool)
    → Built client (build_targets client tokens first n targets memory)
unfolding build_targets
build_targets-Built client tokens first zero targets memory = refl
build_targets-Built client tokens first (suc n) targets memory =
    elim (Bool-cases (type_string_or_number (token_at tokens (first + n)) client.json)) [
      | inr e ↦
          rw (e, build_targets)
            (
              Told.invalid_params,
              send_error-answer client ErrorCode.invalid_params (codes "Invalid parameters"),
            )
      | inl e ↦ elim (Bool-cases (next_memory memory).0) [
        | inl f ↦ rw (e, f, build_targets) (build_targets-Built client tokens first n _ _)
        | inr f ↦
            rw (e, f, build_targets)
              (
                Told.no_memory,
                send_error-answer client ErrorCode.internal_error (codes "Can't allocate memory"),
              )
      ]
    ]

pub target_list_of-Listened :
    (client : Client) (tokens : List Token) (memory : List Bool) (out : Output)
    → Listened client tokens out (target_list_of client tokens memory (Extracted.valid out))
unfolding build_target_list
target_list_of-Listened client tokens memory out = elim (Option-cases (get_or out.values 0 none)) [
  | inl e ↦ rw (e, target_list_of) (inr (refl, inl e))
  | inr (target, e) ↦
      let n : ℕ = get_or out.counts 0 0 in
      elim (Bool-cases (n == 0)) [
        | inl f ↦
            rw (e, f, target_list_of, build_target_list) (inr (refl, inr (inl (ground arith))))
        | inr f ↦ elim (Bool-cases (is_array (token_at tokens target).type)) [
          | inl g ↦
              rw (e, f, g, target_list_of, build_target_list)
                (Built-Listened client tokens out _
                  (build_targets-Built client tokens (target + 1) (n - 1) [] memory))
          | inr g ↦ elim (Bool-cases (n == 1)) [
            | inl h ↦
                rw (e, f, g, h, target_list_of, build_target_list)
                  (Built-Listened client tokens out _
                    (build_targets-Built client tokens target n [] memory))
            | inr h ↦
                rw (e, f, g, h, target_list_of, build_target_list)
                  (inr (refl, inr (inr (target, e, g, ground arith))))
          ]
        ]
      ]
]
