-- ===== src/Jsonrpc/Dispatch/Texts.antt =====
-- The array of the messages of a batch as a text, and the writes that make it.
use mathlib.Core.List.{◌++◌, append_assoc, append-nil}
use lightsd.Common.{
  ℕ, zero, suc, ◌+◌, ◌≡◌, refl, sym, ap, ◌∙◌, inl, inr, List, [], ◌∷◌, true, false, not, some, none,
  Option, ◌==◌, Bool-cases, if◌then◌else◌, arith,
}
use lightsd.Common.Bytes.{codes}
use lightsd.Jsonrpc.Tokens.{Token, token_at, is_array, consume_object_or_array}
use lightsd.Jsonrpc.Client.{Client, ErrorCode, write_buf, write_string, send_error}
use lightsd.Jsonrpc.Answers.{
  Answer, answer_text, id_text-write_buf, send_error-answer, write_buf-write_buf,
}
use lightsd.Jsonrpc.Dispatch.{batch_prepare_next_part, refuse_member}
use lightsd.Jsonrpc.Dispatch.Parts.{separator, batch_prepare_next_part_lem, write_buf-output}
use lightsd.Jsonrpc.Dispatch.One.{no_request}

-- The messages behind one that was written, and the bracket.
abbrev pub more_text : List (List ℕ) → List ℕ
more_text [] = codes "]"
more_text (m ∷ ms) = codes "," ++ (m ++ more_text ms)

-- An array of messages as a text, and nothing for no message.
abbrev pub batch_text : List (List ℕ) → List ℕ
batch_text [] = []
batch_text (m ∷ ms) = codes "[" ++ (m ++ more_text ms)

-- What is left to write of a batch of which `n` messages were written.
abbrev pub left_text : ℕ → List (List ℕ) → List ℕ
left_text zero ms = batch_text ms
left_text (suc n) ms = more_text ms

left_text-cons :
    (n : ℕ) (m : List ℕ) (ms : List (List ℕ))
    → (separator n ++ m) ++ left_text (n + 1) ms ≡ left_text n (m ∷ ms)
left_text-cons zero m ms =
    ap (λ (k : ℕ). (codes "[" ++ m) ++ left_text k ms) one
    ∙ append_assoc (codes "[") (m) (more_text ms)
  where
    one : 0 + 1 ≡ suc zero
    one = omega arith
left_text-cons (suc n) m ms =
    ap (λ (b : List ℕ). (b ++ m) ++ left_text (suc n + 1) ms) comma
    ∙ ap (λ (k : ℕ). (codes "," ++ m) ++ left_text k ms) one
    ∙ append_assoc (codes ",") (m) (more_text ms)
  where
    one : suc n + 1 ≡ suc (suc n)
    one = omega arith

    comma : separator (suc n) ≡ codes ","
    comma = let e : (suc n == 0) ≡ false = ground arith in rw e refl

pub left_text-step :
    (before now after : List ℕ) (n : ℕ) (m : List ℕ) (ms : List (List ℕ))
    → now ≡ before ++ (separator n ++ m)
    → after ≡ now ++ left_text (n + 1) ms
    → after ≡ before ++ left_text n (m ∷ ms)
left_text-step before now after n m ms e f =
    f
    ∙ ap (λ (b : List ℕ). b ++ left_text (n + 1) ms) e
    ∙ append_assoc before (separator n ++ m) (left_text (n + 1) ms)
    ∙ ap (λ (b : List ℕ). before ++ b) (left_text-cons n m ms)

pub close-output :
    (client : Client) (n : ℕ)
    → client.has_io ≡ true
    → (if not (n == 0) then write_string client "]" else client).output
      ≡ client.output ++ left_text n []
close-output client zero io = sym (append-nil client.output)
close-output client (suc n) io =
    let e : (suc n == 0) ≡ false = ground arith in rw e (write_buf-output client (codes "]") io)

-- What was written with the separator in front.
pub answered-output :
    (client : Client) (n : ℕ) (m : List ℕ)
    → client.has_io ≡ true
    → (write_buf client (separator n ++ m)).output ≡ client.output ++ (separator n ++ m)
answered-output client n m io = write_buf-output client (separator n ++ m) io

pub refuse_member_lem :
    (client : Client) (tokens : List Token) (ti parsed n next : ℕ)
    → (if is_array (token_at tokens ti).type
        then consume_object_or_array tokens ti parsed
        else some (ti + 1))
      ≡ some next
    → refuse_member client tokens ti parsed (n + 1)
      ≡ some (write_buf client (separator n ++ no_request client), next)
unfolding refuse_member
refuse_member_lem client tokens ti parsed n next e =
    let started : Client = batch_prepare_next_part client (some (n + 1)) in
    let told : send_error started ErrorCode.invalid_request (codes "Invalid request")
        ≡ write_buf client (separator n ++ no_request client) =
      ap (λ (c : Client). send_error c ErrorCode.invalid_request (codes "Invalid request"))
        (batch_prepare_next_part_lem client n)
      ∙ send_error-answer (write_buf client (separator n)) ErrorCode.invalid_request
          (codes "Invalid request")
      ∙ ap
          (λ (id : List ℕ).
            write_buf (write_buf client (separator n))
              (answer_text (Answer.error id ErrorCode.invalid_request (codes "Invalid request"))))
          (id_text-write_buf client (separator n))
      ∙ write_buf-write_buf client (separator n) (no_request client) in
    elim (Bool-cases (is_array (token_at tokens ti).type)) [
      | inl f ↦
          let g : consume_object_or_array tokens ti parsed ≡ some next = rw f at e in
          rw (f, g, refuse_member) (ap (λ (c : Client). some (c, next)) told)
      | inr f ↦
          let g : some (ti + 1) ≡ some next = rw f at e in
          rw (f, refuse_member)
            (ap (λ (c : Client). some (c, ti + 1)) told
              ∙ ap
                  (λ (k : Option ℕ). elim k [
                    | none ↦ none
                    | some j ↦ some (write_buf client (separator n ++ no_request client), j)
                  ])
                  g)
    ]
