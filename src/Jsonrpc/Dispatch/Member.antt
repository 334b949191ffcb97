-- ===== src/Jsonrpc/Dispatch/Member.antt =====
-- One member of a batch: what it is told, and what is left.
use mathlib.Core.List.{◌++◌}
use lightsd.Common.{
  ℕ, ◌+◌, ◌-◌, ◌<◌, ◌≡◌, ◌≢◌, refl, sym, ap, ◌∙◌, inl, inr, List, true, false, Option, none, some,
  Option-cases, arith, drop, if◌then◌else◌,
}
use lightsd.Jsonrpc.Tokens.{Token, token_at, is_object, is_array, consume_object_or_array}
use lightsd.Jsonrpc.Tokens.Steps.{consume_object_or_array-ends}
use lightsd.Jsonrpc.Schema.{is_some}
use lightsd.Jsonrpc.Request.{Checked, check_and_extract_request}
use lightsd.Jsonrpc.Client.{Request, Client, ErrorCode, write_buf}
use lightsd.Jsonrpc.Dispatch.{
  MethodHandler, Handlers, methods, find_method, method_name, Dispatched, call, dispatch_one,
}
use lightsd.Jsonrpc.Dispatch.Parts.{
  Answers, AllAnswer, find_method-Answers, asking, answered, separator,
  check_and_extract_request-ends,
}
use lightsd.Jsonrpc.Dispatch.One.{
  error_of, no_request, fail_lem, reply_lem, notify-silent, call-notify, call-reply,
}

module _ {S : Type 0} (handlers : Handlers S) (tokens : List Token) (parsed : ℕ) where
  -- What is done for the member of a batch at a token, with so many messages sent before: the message, if there
  -- is one, the token behind the member, and the client and the state that are left.
  pub data Member (client : Client) (state : S) (ti n : ℕ)
      : Option (List ℕ) → ℕ → Client → S → Type 0 where
    no_object :
        (next : ℕ)
        → is_object (token_at tokens ti).type ≡ false
        → (if is_array (token_at tokens ti).type
            then consume_object_or_array tokens ti parsed
            else some (ti + 1))
          ≡ some next
        → Member client state ti n
            (some (no_request client))
            next
            (write_buf client (separator n ++ no_request client))
            state
    refused :
        (request : Request) (k : ℕ)
        → is_object (token_at tokens ti).type ≡ true
        → check_and_extract_request (drop ti tokens) (parsed - ti) client.json
          ≡ Checked.refused request
        → consume_object_or_array (drop ti tokens) 0 (parsed - ti) ≡ some k
        → Member client state ti n
            (some (
              error_of client
                (record request { request_ntokens = k })
                ErrorCode.invalid_request
                "Invalid request"))
            (ti + k)
            (answered client n (
              error_of client
                (record request { request_ntokens = k })
                ErrorCode.invalid_request
                "Invalid request"))
            state
    not_found :
        (request : Request)
        → is_object (token_at tokens ti).type ≡ true
        → check_and_extract_request (drop ti tokens) (parsed - ti) client.json
          ≡ Checked.accepted request
        → find_method (methods handlers) (method_name client.json request) ≡ none
        → Member client state ti n
            (some (error_of client request ErrorCode.method_not_found "Method not found"))
            (ti + request.request_ntokens)
            (answered client n
              (error_of client request ErrorCode.method_not_found "Method not found"))
            state
    replied :
        (request : Request) (method : MethodHandler S) (m : List ℕ)
        → is_object (token_at tokens ti).type ≡ true
        → check_and_extract_request (drop ti tokens) (parsed - ti) client.json
          ≡ Checked.accepted request
        → find_method (methods handlers) (method_name client.json request) ≡ some method
        → request.id ≢ none
        → (method (asking client request n) state).0 ≡ write_buf (asking client request n) m
        → Member client state ti n
            (some m)
            (ti + request.request_ntokens)
            (answered client n m)
            (method (asking client request n) state).1
    notified :
        (request : Request) (method : MethodHandler S)
        → is_object (token_at tokens ti).type ≡ true
        → check_and_extract_request (drop ti tokens) (parsed - ti) client.json
          ≡ Checked.accepted request
        → find_method (methods handlers) (method_name client.json request) ≡ some method
        → request.id ≡ none
        → Member client state ti n none
            (ti + request.request_ntokens)
            (record client { current_request = none })
            (method (record client { has_io = false; current_request = some request }) state).1

  -- The messages sent, with this one.
  abbrev pub sent_with : ℕ → Option (List ℕ) → ℕ
  sent_with n none = n
  sent_with n (some m) = n + 1

  abbrev Object : Client → S → ℕ → ℕ → Type 0
  Object client state ti n =
      (d : Dispatched S) × (message : Option (List ℕ)) × (dispatch_one handlers client state
          (drop ti tokens) (parsed - ti) (some n)
        ≡ some d)
      × (0 < d.request_ntokens)
      × (d.batch_sent ≡ some (sent_with n message))
      × Member client state ti n message (ti + d.request_ntokens) d.client d.state

  module _ (client : Client) (state : S) (ti n : ℕ)
      (object : is_object (token_at tokens ti).type ≡ true) where
    accepted_Member :
        (request : Request) (o : Option (MethodHandler S))
        → check_and_extract_request (drop ti tokens) (parsed - ti) client.json
          ≡ Checked.accepted request
        → find_method (methods handlers) (method_name client.json request) ≡ o
        → ((method : MethodHandler S) → o ≡ some method → Answers method)
        → 0 < request.request_ntokens
        → dispatch_one handlers client state (drop ti tokens) (parsed - ti) (some n)
          ≡ some (call handlers o client state request (some (n + 1)))
        → Object client state ti n
    unfolding call
    accepted_Member request none checked found answers lt e = (
      _,
      some (error_of client request ErrorCode.method_not_found "Method not found"),
      e
          ∙ ap some (
              fail_lem handlers client state request ErrorCode.method_not_found "Method not found"
                n),
      lt,
      refl,
      Member.not_found request object checked found,
    )
    accepted_Member request (some method) checked found answers lt e =
        elim (Option-cases request.id) [
          | inl no_id ↦ (
            _,
            none,
            e
                ∙ ap some (call-notify handlers method client state request (some (n + 1)) no_id)
                ∙ ap some
                    (notify-silent handlers method client state request n (answers method refl)),
            lt,
            refl,
            Member.notified request method object checked found no_id,
          )
          | inr (id, has_id) ↦
              let (m, w) = answers method refl (asking client request n) state in
              (
                _,
                some m,
                e
                    ∙ ap some (
                        call-reply handlers method client state request (some (n + 1))
                          (ap (λ (i : Option ℕ). is_some i) has_id))
                    ∙ ap some (reply_lem handlers method client state request n m w),
                lt,
                refl,
                Member.replied request method m object checked found
                    (λ f. let g : none ≡ some id = sym f ∙ has_id in cc) w,
              )
        ]

    -- One member of a batch that is an object.
    pub dispatch_one-Member : AllAnswer (methods handlers) → Object client state ti n
    unfolding dispatch_one
    dispatch_one-Member all =
        elim (check_and_extract_request-ends (drop ti tokens) (parsed - ti) client.json) [
          | inl (r, e) ↦
              let (k, f, lt) = consume_object_or_array-ends (drop ti tokens) 0 (parsed - ti) in
              (
                _,
                some _,
                rw (e, f, dispatch_one)
                    (ap some (
                      fail_lem handlers client state (record r { request_ntokens = k })
                        ErrorCode.invalid_request "Invalid request" n)),
                lt,
                refl,
                Member.refused r k object e f,
              )
          | inr (r, e, lt) ↦
              accepted_Member r (find_method (methods handlers) (method_name client.json r)) e refl
                (λ method f.
                  find_method-Answers (methods handlers) (method_name client.json r) method all f)
                (omega arith) (rw (e, dispatch_one) refl)
        ]
