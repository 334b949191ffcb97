-- ===== src/Jsonrpc/Answers.antt =====
-- The messages that a client gets, as texts, beside the functions of jsonrpc.c that write them.
use mathlib.Core.List.{◌++◌, append_assoc}
use lightsd.Common.{
  ℕ, ◌≡◌, refl, ap, inl, inr, List, [], true, none, some, Bool-cases, Option-cases,
}
use lightsd.Common.Bytes.{codes}
use lightsd.Jsonrpc.Client.{
  Client, ErrorCode, code_text, write_buf, id_bytes, request_id, write_id, send_response,
  send_error,
}

-- What a client is told about one request: an error or a result, or nothing.
pub data Answer : Type 0 where
  silence : Answer
  error : List ℕ → ErrorCode → List ℕ → Answer
  result : List ℕ → List ℕ → Answer

-- An object of JSON with the version, the id and what the message says.
abbrev pub answer_text : Answer → List ℕ
answer_text Answer.silence = []
answer_text (Answer.error id code message) =
    codes "{\"jsonrpc\": \"2.0\", \"id\": "
    ++ (id
        ++ (codes ", \"error\": {\"code\": "
            ++ (codes (code_text code)
                ++ (codes ", \"message\": \"" ++ (message ++ codes "\"}}")))))
answer_text (Answer.result id value) =
    codes "{\"jsonrpc\": \"2.0\", \"id\": "
    ++ (id ++ (codes ", \"result\": " ++ (value ++ codes "}")))

-- The id of the current request, as it was sent; null where there is none.
abbrev pub id_text : Client → List ℕ
id_text client = elim (request_id client.current_request) [
  | none ↦ codes "null"
  | some t ↦ id_bytes client.json t
]

-- Two writes are one.
pub write_buf-write_buf :
    (client : Client) (a b : List ℕ) → write_buf (write_buf client a) b ≡ write_buf client (a ++ b)
unfolding write_buf
write_buf-write_buf client a b = elim (Bool-cases client.has_io) [
  | inl e ↦
      rw (e, write_buf)
        (ap (λ (o : List ℕ). record client { has_io = true; output = o })
          (append_assoc client.output a b))
  | inr e ↦ rw (e, write_buf) refl
]

pub write_id_lem : (client : Client) → write_id client ≡ write_buf client (id_text client)
unfolding write_id
write_id_lem client = elim (Option-cases (request_id client.current_request)) [
  | inl e ↦ rw (e, write_id, id_text) refl
  | inr (t, e) ↦ rw (e, write_id, id_text) refl
]

pub id_text-write_buf :
    (client : Client) (a : List ℕ) → id_text (write_buf client a) ≡ id_text client
unfolding write_buf
id_text-write_buf client a = elim (Bool-cases client.has_io) [
  | inl e ↦ rw (e, write_buf) refl
  | inr e ↦ rw (e, write_buf) refl
]

-- An error is written as one message, with the id of the current request or null, its code and its
-- text; to a client that has no io nothing is written.
pub send_error-answer :
    (client : Client) (code : ErrorCode) (message : List ℕ)
    → send_error client code message
      ≡ write_buf client (answer_text (Answer.error (id_text client) code message))
unfolding send_error
send_error-answer client code message =
    simp (write_id_lem, id_text-write_buf, write_buf-write_buf, append_assoc) refl

-- A response is written as one message, with the id of the current request or null, and the result; to a
-- client that has no io nothing is written.
pub send_response-answer :
    (client : Client) (value : List ℕ)
    → send_response client value
      ≡ write_buf client (answer_text (Answer.result (id_text client) value))
unfolding send_response
send_response-answer client value =
    simp (write_id_lem, id_text-write_buf, write_buf-write_buf, append_assoc) refl
