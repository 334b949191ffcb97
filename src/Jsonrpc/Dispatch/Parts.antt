-- ===== src/Jsonrpc/Dispatch/Parts.antt =====
-- The parts of the answer to a batch: what stands before a message, and what a handler may write.
use mathlib.Core.List.{◌++◌}
use mathlib.Core.Path.{subst}
use lightsd.Common.{
  ℕ, zero, suc, ◌+◌, ◌<◌, ◌≡◌, ◌⊎◌, refl, sym, ap, ◌∙◌, inl, inr, List, [], ◌∷◌, true, false, none,
  some, get_or, ◌==◌, Bool-cases, if◌then◌else◌, arith,
}
use lightsd.Common.Bytes.{same_bytes, codes}
use lightsd.Jsonrpc.Tokens.{Token}
use lightsd.Jsonrpc.Schema.{Extracted, extract_dict}
use lightsd.Jsonrpc.Schema.Stored.{Justified, some_inj, none-some}
use lightsd.Jsonrpc.Schema.Dict.{Sound, extract_dict-Sound}
use lightsd.Jsonrpc.Request.{
  Checked, check_and_extract_request, checked_of, request_of, request_schema, blank_request,
  count_tokens,
}
use lightsd.Jsonrpc.Client.{Request, Client, write_buf}
use lightsd.Jsonrpc.Answers.{write_buf-write_buf}
use lightsd.Jsonrpc.Dispatch.{MethodHandler, Method, find_method, batch_prepare_next_part}

-- What a handler owes the dispatcher: it writes to the client, and leaves the rest of it alone.
abbrev pub Answers : {S : Type 0} → MethodHandler S → Type 0
Answers {S = S} method =
    (client : Client) (state : S) → (m : List ℕ) × ((method client state).0 ≡ write_buf client m)

abbrev pub AllAnswer : {S : Type 0} → List (Method S) → Type 0
AllAnswer [] = Unit {0}
AllAnswer (m ∷ ms) = Answers m.method × AllAnswer ms

pub find_method-Answers :
    {S : Type 0} (ms : List (Method S)) (name : List ℕ) (method : MethodHandler S)
    → AllAnswer ms
    → find_method ms name ≡ some method
    → Answers method
unfolding find_method
find_method-Answers [] name method all h = absurd (none-some h)
find_method-Answers (m ∷ ms) name method (a, all) h = elim (Bool-cases (same_bytes m.name name)) [
  | inl e ↦
      let f : find_method (m ∷ ms) name ≡ some m.method = rw (e, find_method) refl in
      subst Answers (some_inj (sym f ∙ h)) a
  | inr e ↦
      let f : find_method (m ∷ ms) name ≡ find_method ms name = rw (e, find_method) refl in
      find_method-Answers ms name method all (sym f ∙ h)
]

-- What stands before a message of a batch.
abbrev pub separator : ℕ → List ℕ
separator n = if n == 0 then codes "[" else codes ","

pub batch_prepare_next_part_lem :
    (client : Client) (n : ℕ)
    → batch_prepare_next_part client (some (n + 1)) ≡ write_buf client (separator n)
unfolding batch_prepare_next_part
batch_prepare_next_part_lem client n = elim (Bool-cases (n == 0)) [
  | inl e ↦ let f : ((n + 1) == 1) ≡ true = ground arith in rw (e, f, batch_prepare_next_part) refl
  | inr e ↦
      let f : ((n + 1) == 1) ≡ false = ground arith in
      let g : ((n + 1) == 0) ≡ false = ground arith in rw (e, f, g, batch_prepare_next_part) refl
]

pub write_buf-output :
    (client : Client) (a : List ℕ)
    → client.has_io ≡ true
    → (write_buf client a).output ≡ client.output ++ a
unfolding write_buf
write_buf-output client a e = rw (e, write_buf) refl

write_buf-has_io : (client : Client) (a : List ℕ) → (write_buf client a).has_io ≡ client.has_io
unfolding write_buf
write_buf-has_io client a = elim (Bool-cases client.has_io) [
  | inl e ↦ rw (e, write_buf) refl
  | inr e ↦ rw (e, write_buf) refl
]

pub write_buf-muted :
    (client : Client) (a : List ℕ) → client.has_io ≡ false → write_buf client a ≡ client
unfolding write_buf
write_buf-muted client a e = rw (e, write_buf) refl

blank_request-none : (slot : ℕ) → get_or blank_request.values slot none ≡ none
blank_request-none zero = refl
blank_request-none (suc zero) = refl
blank_request-none (suc (suc zero)) = refl
blank_request-none (suc (suc (suc slot))) = refl

blank_request-Justified :
    (json : List ℕ) (tokens : List Token) → Justified request_schema json tokens blank_request
blank_request-Justified json tokens slot ti h =
    absurd (none-some (sym (blank_request-none slot) ∙ h))

-- Every check comes to an end, and an accepted request has its tokens.
pub check_and_extract_request-ends :
    (tokens : List Token) (ntokens : ℕ) (json : List ℕ)
    → ((r : Request) × (check_and_extract_request tokens ntokens json ≡ Checked.refused r))
      ⊎ ((r : Request) × (check_and_extract_request tokens ntokens json ≡ Checked.accepted r)
          × (4 < r.request_ntokens))
unfolding check_and_extract_request
check_and_extract_request-ends tokens ntokens json =
    ends (extract_dict request_schema json tokens ntokens blank_request) (
      extract_dict-Sound request_schema json tokens ntokens blank_request
        (blank_request-Justified json tokens))
  where
    ends :
        (r : Extracted)
        → Sound request_schema json tokens r
        → ((q : Request) × (checked_of tokens r ≡ Checked.refused q))
          ⊎ ((q : Request) × (checked_of tokens r ≡ Checked.accepted q) × (4 < q.request_ntokens))
    ends Extracted.exhausted s = absurd s
    ends (Extracted.invalid out) s = inl (request_of tokens out, refl)
    ends (Extracted.valid out) s = inr (
      record (request_of tokens out) { request_ntokens = count_tokens (request_of tokens out) },
      refl,
      omega arith,
    )

-- The client as a member of a batch finds it, with `n` messages sent before, and as it is left with a message.
abbrev pub asking : Client → Request → ℕ → Client
asking client request n = write_buf (record client { current_request = some request }) (separator n)

abbrev pub answered : Client → ℕ → List ℕ → Client
answered client n m = record (write_buf client (separator n ++ m)) { current_request = none }

-- What is written while a request is the current one.
current_write_buf :
    (client : Client) (request : Request) (m : List ℕ)
    → record (write_buf (record client { current_request = some request }) m) {
      current_request = none;
    }
      ≡ record (write_buf client m) { current_request = none }
unfolding write_buf
current_write_buf client request m = elim (Bool-cases client.has_io) [
  | inl e ↦ rw (e, write_buf) refl
  | inr e ↦ rw (e, write_buf) refl
]

-- A message behind its separator.
pub asking-answered :
    (client : Client) (request : Request) (n : ℕ) (m : List ℕ)
    → record (write_buf (asking client request n) m) { current_request = none }
      ≡ answered client n m
asking-answered client request n m =
    ap (λ (c : Client). record c { current_request = none })
      (write_buf-write_buf (record client { current_request = some request }) (separator n) m)
    ∙ current_write_buf client request (separator n ++ m)

pub write_buf-has_io_lem :
    (client : Client) (m : List ℕ) → client.has_io ≡ true → (write_buf client m).has_io ≡ true
write_buf-has_io_lem client m io = write_buf-has_io client m ∙ io
