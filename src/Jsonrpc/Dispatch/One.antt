-- ===== src/Jsonrpc/Dispatch/One.antt =====
-- lgtd_jsonrpc_dispatch_one: it goes on by a token at least, and what it writes is one message or nothing.
use Prim.Native.String.{String}
use lightsd.Common.{ℕ, ◌+◌, ◌-◌, ◌≡◌, refl, ap, ◌∙◌, List, true, false, Option, none, some, arith}
use lightsd.Common.Bytes.{codes}
use lightsd.Jsonrpc.Tokens.{Token}
use lightsd.Jsonrpc.Schema.{is_some}
use lightsd.Jsonrpc.Request.{Checked, check_and_extract_request}
use lightsd.Jsonrpc.Client.{Request, Client, ErrorCode, write_buf, send_error}
use lightsd.Jsonrpc.Answers.{Answer, answer_text, id_text, id_text-write_buf, send_error-answer}
use lightsd.Jsonrpc.Dispatch.{
  MethodHandler, Handlers, methods, find_method, method_name, notify, reply, fail, call,
  dispatch_one,
}
use lightsd.Jsonrpc.Dispatch.Parts.{
  Answers, asking, answered, asking-answered, separator, batch_prepare_next_part_lem,
  write_buf-muted,
}

-- The error of a request, with its id.
abbrev pub error_of : Client → Request → ErrorCode → String → List ℕ
error_of client request code msg =
    answer_text
      (Answer.error (id_text (record client { current_request = some request })) code (codes msg))

-- The error of what is no request.
abbrev pub no_request : Client → List ℕ
no_request client =
    answer_text (Answer.error (id_text client) ErrorCode.invalid_request (codes "Invalid request"))

module _ {S : Type 0} (handlers : Handlers S) where
  -- An error is one message, with the id of the request.
  pub fail_lem :
      (client : Client) (state : S) (request : Request) (code : ErrorCode) (msg : String) (n : ℕ)
      → fail handlers client state request code msg (some (n + 1)) ≡ record {
        client = answered client n (error_of client request code msg);
        state = state;
        batch_sent = some (n + 1);
        request_ntokens = request.request_ntokens;
      }
  unfolding fail
  fail_lem client state request code msg n =
      let current : Client = record client { current_request = some request } in
      ap
        (λ (c : Client). record {
          client = record (send_error c code (codes msg)) { current_request = none };
          state = state;
          batch_sent = some (n + 1);
          request_ntokens = request.request_ntokens;
        })
        (batch_prepare_next_part_lem current n)
      ∙ ap
          (λ (c : Client). record {
            client = record c { current_request = none };
            state = state;
            batch_sent = some (n + 1);
            request_ntokens = request.request_ntokens;
          })
          (send_error-answer (asking client request n) code (codes msg)
            ∙ ap
                (λ (id : List ℕ).
                  write_buf (asking client request n)
                    (answer_text (Answer.error id code (codes msg))))
                (id_text-write_buf current (separator n)))
      ∙ ap
          (λ (c : Client). record {
            client = c;
            state = state;
            batch_sent = some (n + 1);
            request_ntokens = request.request_ntokens;
          })
          (asking-answered client request n (error_of client request code msg))

  -- What a method writes, behind the separator.
  pub reply_lem :
      (method : MethodHandler S) (client : Client) (state : S) (request : Request) (n : ℕ)
      (m : List ℕ)
      → (method (asking client request n) state).0 ≡ write_buf (asking client request n) m
      → reply handlers method client state request (some (n + 1)) ≡ record {
        client = answered client n m;
        state = (method (asking client request n) state).1;
        batch_sent = some (n + 1);
        request_ntokens = request.request_ntokens;
      }
  unfolding reply
  reply_lem method client state request n m e =
      let current : Client = record client { current_request = some request } in
      ap
        (λ (c : Client). record {
          client = record ((method c state).0) { current_request = none };
          state = (method c state).1;
          batch_sent = some (n + 1);
          request_ntokens = request.request_ntokens;
        })
        (batch_prepare_next_part_lem current n)
      ∙ ap
          (λ (c : Client). record {
            client = c;
            state = (method (asking client request n) state).1;
            batch_sent = some (n + 1);
            request_ntokens = request.request_ntokens;
          })
          (ap (λ (c : Client). record c { current_request = none }) e
            ∙ asking-answered client request n m)

  pub notify-silent :
      (method : MethodHandler S) (client : Client) (state : S) (request : Request) (n : ℕ)
      → Answers method
      → notify handlers method client state request (some (n + 1)) ≡ record {
        client = record client { current_request = none };
        state = (method (record client { has_io = false; current_request = some request }) state).1;
        batch_sent = some n;
        request_ntokens = request.request_ntokens;
      }
  unfolding notify
  notify-silent method client state request n answers =
      let muted : Client = record client { has_io = false; current_request = some request } in
      let (m, e) = answers muted state in
      let f : (method muted state).0 ≡ muted = e ∙ write_buf-muted muted m refl in
      let g : (n + 1) - 1 ≡ n = omega arith in
      ap
        (λ (c : Client). record {
          client = record c { has_io = client.has_io; current_request = none };
          state = (method muted state).1;
          batch_sent = some ((n + 1) - 1);
          request_ntokens = request.request_ntokens;
        })
        f
      ∙ ap
          (λ (k : ℕ). record {
            client = record client { current_request = none };
            state = (method muted state).1;
            batch_sent = some k;
            request_ntokens = request.request_ntokens;
          })
          g

  pub call-notify :
      (method : MethodHandler S) (client : Client) (state : S) (request : Request) (sent : Option ℕ)
      → request.id ≡ none
      → call handlers (some method) client state request sent
        ≡ notify handlers method client state request sent
  unfolding call
  call-notify method client state request sent e =
      let f : is_some request.id ≡ false = ap is_some e in rw (f, call) refl

  pub call-reply :
      (method : MethodHandler S) (client : Client) (state : S) (request : Request) (sent : Option ℕ)
      → is_some request.id ≡ true
      → call handlers (some method) client state request sent
        ≡ reply handlers method client state request sent
  unfolding call
  call-reply method client state request sent e = rw (e, call) refl

  -- A request of a batch that is accepted, has no id and names a method that exists: whatever the
  -- method writes, the client is as it was before but has no current request, and the
  -- batch has as many messages as before; the state is the one that the method leaves.
  pub dispatch_one-notification :
      (method : MethodHandler S) (client : Client) (state : S) (tokens : List Token) (ntokens n : ℕ)
      (request : Request)
      → check_and_extract_request tokens ntokens client.json ≡ Checked.accepted request
      → request.id ≡ none
      → find_method (methods handlers) (method_name client.json request) ≡ some method
      → Answers method
      → dispatch_one handlers client state tokens ntokens (some n)
        ≡ some (record {
          client = record client { current_request = none };
          state =
              (method (record client { has_io = false; current_request = some request }) state).1;
          batch_sent = some n;
          request_ntokens = request.request_ntokens;
        })
  unfolding dispatch_one
  dispatch_one-notification method client state tokens ntokens n request checked no_id found
        answers =
      let e : dispatch_one handlers client state tokens ntokens (some n)
          ≡ some (
              call handlers (find_method (methods handlers) (method_name client.json request))
                client state request (some (n + 1))) =
        rw (checked, dispatch_one) refl in
      e
      ∙ ap
          (λ (f : Option (MethodHandler S)).
            some (call handlers f client state request (some (n + 1))))
          found
      ∙ ap some (call-notify method client state request (some (n + 1)) no_id)
      ∙ ap some (notify-silent method client state request n answers)
