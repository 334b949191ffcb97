-- ===== src/Jsonrpc/Dispatch/Batch.antt =====
-- The loop of lgtd_jsonrpc_dispatch_request over a batch: it comes to an end, and what it writes is an
-- array of the messages of its members, or nothing.
use mathlib.Core.List.{◌++◌}
use lightsd.Common.{ℕ, ◌+◌, ◌<◌, ◌≤◌, ◌≡◌, List, [], ◌∷◌, true, some, none, Option}
use lightsd.Jsonrpc.Tokens.{Token}
use lightsd.Jsonrpc.Client.{Client}
use lightsd.Jsonrpc.Dispatch.{Handlers, dispatch_batch}
use lightsd.Jsonrpc.Dispatch.Parts.{separator}
use lightsd.Jsonrpc.Dispatch.Member.{Member}
use lightsd.Jsonrpc.Dispatch.Texts.{left_text}

module _ {S : Type 0} (handlers : Handlers S) (tokens : List Token) (parsed : ℕ) where
  -- The members of a batch from a token on, with so many messages sent before: the messages, and the client
  -- and the state that are left.
  pub data Members : Client → S → ℕ → ℕ → List (List ℕ) → Client → S → Type 0 where
    finished :
        (client : Client) (state : S) (ti n : ℕ)
        → parsed ≤ ti
        → Members client state ti n [] client state
    told :
        (client : Client) (state : S) (ti n next : ℕ) (client' client'' : Client)
        (state' state'' : S) (m : List ℕ) (ms : List (List ℕ))
        → ti < parsed
        → Member handlers tokens parsed client state ti n (some m) next client' state'
        → Members client' state' next (n + 1) ms client'' state''
        → Members client state ti n (m ∷ ms) client'' state''
    silent :
        (client : Client) (state : S) (ti n next : ℕ) (client' client'' : Client)
        (state' state'' : S) (ms : List (List ℕ))
        → ti < parsed
        → Member handlers tokens parsed client state ti n none next client' state'
        → Members client' state' next n ms client'' state''
        → Members client state ti n ms client'' state''

  -- The client has an io as before, and got the message behind a separator.
  abbrev Got : Client → ℕ → Option (List ℕ) → Client → Type 0
  Got client n none client' = client'.output ≡ client.output
  Got client n (some m) client' = client'.output ≡ client.output ++ (separator n ++ m)

  abbrev Dispatches : ℕ → Client → S → ℕ → ℕ → Type 0
  Dispatches fuel client state ti n =
      (last client' : Client) × (state' : S) × (messages : List (List ℕ)) × (dispatch_batch handlers
          fuel client state tokens ti parsed n
        ≡ some (client', state'))
      × Members client state ti n messages last state'
      × (client'.output ≡ client.output ++ left_text n messages)

  -- What is left to dispatch is, from any token further on.
  abbrev Goes : ℕ → ℕ → Type 0
  Goes fuel ti =
      (client : Client) (state : S) (next n : ℕ)
      → client.has_io ≡ true
      → ti < next
      → Dispatches fuel client state next n
