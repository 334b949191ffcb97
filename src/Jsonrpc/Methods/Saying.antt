-- ===== src/Jsonrpc/Methods/Saying.antt =====
-- What the parts tell the client that the methods share.
use lightsd.Common.{
  ℕ, ◌≡◌, ◌⊎◌, refl, sym, ap, ◌∙◌, inl, inr, List, Any, Bool, none, some, Bool-cases, Option-cases,
  get_or, get_or-replicate, ◌&&◌, not,
}
use lightsd.Common.Bytes.{codes}
use lightsd.Common.Int.{ℤ, to_int}
use lightsd.Jsonrpc.Tokens.{Token}
use lightsd.Jsonrpc.Numbers.{strtol}
use lightsd.Jsonrpc.Schema.{Node, Output, Extracted, extract_params}
use lightsd.Jsonrpc.Schema.Stored.{none-some}
use lightsd.Jsonrpc.Schema.Dict.{Sound}
use lightsd.Jsonrpc.Schema.Array.{extract_params-Sound}
use lightsd.Jsonrpc.Client.{Client, ErrorCode, write_buf, send_error}
use lightsd.Jsonrpc.Answers.{send_error-answer}
use lightsd.Router.Network.{before_zero}
use lightsd.Jsonrpc.Methods.{
  Daemon, Targets, next_memory, params_of, target_list_of, with_targets, check_and_call,
  extract_target_list, target_schema, invalid_params,
}
use lightsd.Jsonrpc.Methods.Answering.{
  Told, told_text, Hears, NoTargets, IsMissing, IsUnreadable, Reports, Listened,
  target_list_of-Listened,
}
use lightsd.Jsonrpc.Methods.Params.{
  Taken, null, refused, taken, ◌>>=◌, param_text, parse_int, no_params, call_taken,
  after_extraction, check_params_and_call,
}
use lightsd.Jsonrpc.Methods.Tagged.{no_new_tag}
use lightsd.Jsonrpc.Methods.Labels.{with_label}

abbrev pub ProtoMethod : Type 0
ProtoMethod = Client → Daemon → List (List ℕ) → Client × Daemon

abbrev pub AlwaysHears : ProtoMethod → Type 0
AlwaysHears f =
    (client : Client) (daemon : Daemon) (ts : List (List ℕ)) → Hears client (f client daemon ts).0

abbrev pub IsSilent : ProtoMethod → Type 0
IsSilent f =
    (client : Client) (daemon : Daemon) (ts : List (List ℕ)) → (f client daemon ts).0 ≡ client

pub Hears-invalid_params : (client : Client) → Hears client (invalid_params client)
Hears-invalid_params client = (
  Told.invalid_params,
  send_error-answer client ErrorCode.invalid_params (codes "Invalid parameters"),
)

pub Hears-no_device_list :
    (client : Client)
    → Hears client (send_error client ErrorCode.internal_error (codes "couldn't allocate memory"))
Hears-no_device_list client = (
  Told.no_device_list,
  send_error-answer client ErrorCode.internal_error (codes "couldn't allocate memory"),
)

pub Hears-no_new_tag : (client : Client) → Hears client (no_new_tag client)
Hears-no_new_tag client = (
  Told.no_new_tag,
  send_error-answer client ErrorCode.internal_error (codes "couldn't allocate new tag"),
)

pub with_label-AlwaysHears :
    (f : List ℕ → ProtoMethod)
    → ((label : List ℕ) → AlwaysHears (f label))
    → (text : List ℕ) → AlwaysHears (with_label f (some text))
unfolding with_label
with_label-AlwaysHears f hears text client daemon ts =
    elim (Bool-cases (next_memory daemon.memory).0) [
      | inl e ↦
          rw (e, with_label)
            (hears (before_zero text) client
              (record daemon { memory = (next_memory daemon.memory).1 }) ts)
      | inr e ↦
          rw (e, with_label)
            (
              Told.no_memory,
              send_error-answer client ErrorCode.internal_error (codes "Can't allocate memory"),
            )
    ]

pub with_label-IsSilent : (f : List ℕ → ProtoMethod) → IsSilent (with_label f none)
unfolding with_label
with_label-IsSilent f client daemon ts = refl

-- A method behind what was made of the targets.
with_targets-Hears :
    (f : ProtoMethod) (client : Client) (daemon : Daemon) (tokens : List Token) (out : Output)
    (r : Targets)
    → AlwaysHears f
    → Listened client tokens out r
    → Hears client (with_targets f daemon r).0
      ⊎ (((with_targets f daemon r).0 ≡ client) × NoTargets tokens out)
with_targets-Hears f client daemon tokens out (client', none, memory) hears h = h
with_targets-Hears f client daemon tokens out (client', some ts, memory) hears h =
    let (m, e) = hears client' (record daemon { memory = memory }) ts in
    inl (m, e ∙ ap (λ (c : Client). write_buf c (told_text c m)) h)

with_targets-IsSilent :
    (f : ProtoMethod) (client : Client) (daemon : Daemon) (tokens : List Token) (out : Output)
    (r : Targets)
    → IsSilent f
    → Listened client tokens out r
    → Hears client (with_targets f daemon r).0 ⊎ ((with_targets f daemon r).0 ≡ client)
with_targets-IsSilent f client daemon tokens out (client', none, memory) silent h = elim h [
  | inl k ↦ inl k
  | inr k ↦ inr k.0
]
with_targets-IsSilent f client daemon tokens out (client', some ts, memory) silent h =
    inr (silent client' (record daemon { memory = memory }) ts ∙ h)

-- The parameters that a method takes for NULL are missing, and a method with what it takes speaks, or it has a
-- parameter that is missing.
pub record Speaks {A : Type 0} (schema : List Node) (parse : Client → List Token → Output → Taken A)
    (f : A → ProtoMethod) : Type 0 where
  pub nulls :
      (client : Client) (tokens : List Token) (out : Output)
      → parse client tokens out ≡ null
      → Any (IsMissing out) schema
  pub hears :
      (client : Client) (tokens : List Token) (out : Output) (a : A)
      → parse client tokens out ≡ taken a
      → AlwaysHears (f a) ⊎ (Any (IsMissing out) schema × IsSilent (f a))

-- The extraction comes to an end.
extracted :
    (schema : List Node) (size : ℕ) (json : List ℕ) (tokens : List Token) (n : ℕ)
    → Sound schema json tokens (extract_params schema json tokens n (no_params size))
extracted schema size json tokens n =
    extract_params-Sound schema json tokens n (no_params size)
      (λ slot ti e. absurd (none-some (sym (get_or-replicate size slot none) ∙ e)))

pub check_params_and_call-Reports :
    {A : Type 0} (schema : List Node) (size : ℕ) (parse : Client → List Token → Output → Taken A)
    (f : A → ProtoMethod)
    → Speaks schema parse f
    → Reports schema size (check_params_and_call schema size parse f)
unfolding check_params_and_call
check_params_and_call-Reports {A = A} schema size parse f speaks client daemon =
    after (extract_params schema client.json tokens params.1 (no_params size)) refl
      (extracted schema size client.json tokens params.1)
  where
    params : List Token × ℕ
    params = params_of client.current_request

    tokens : List Token
    tokens = params.0

    called :
        (out : Output)
        → extract_params schema client.json tokens params.1 (no_params size) ≡ Extracted.valid out
        → (t : Taken A) → parse client tokens out ≡ t
        → Hears client
            (call_taken t f client daemon
              (target_list_of client tokens daemon.memory (Extracted.valid out))).0
          ⊎ (((call_taken t f client daemon
                  (target_list_of client tokens daemon.memory (Extracted.valid out))).0
                ≡ client)
              × IsUnreadable schema size client)
    called out e null h = inr (refl, (out, e, inr (speaks.nulls client tokens out h)))
    called out e refused h = inl (Hears-invalid_params client)
    called out e (taken a) h =
        let listened = target_list_of-Listened client tokens daemon.memory out in
        elim (speaks.hears client tokens out a h) [
          | inl hears ↦ elim (with_targets-Hears (f a) client daemon tokens out _ hears listened) [
            | inl k ↦ inl k
            | inr k ↦ inr (k.0, (out, e, inl k.1))
          ]
          | inr (missing, silent) ↦
              elim (with_targets-IsSilent (f a) client daemon tokens out _ silent listened) [
                | inl k ↦ inl k
                | inr k ↦ inr (k, (out, e, inr missing))
              ]
        ]

    after :
        (r : Extracted)
        → extract_params schema client.json tokens params.1 (no_params size) ≡ r
        → Sound schema client.json tokens r
        → Hears client (after_extraction (parse client) f client daemon tokens r).0
          ⊎ (((after_extraction (parse client) f client daemon tokens r).0 ≡ client)
              × IsUnreadable schema size client)
    after Extracted.exhausted e s = absurd s
    after (Extracted.invalid out) e s = inl (Hears-invalid_params client)
    after (Extracted.valid out) e s = called out e (parse client tokens out) refl

pub check_and_call-Reports :
    (f : ProtoMethod) → AlwaysHears f → Reports target_schema 1 (check_and_call f)
unfolding check_and_call extract_target_list
check_and_call-Reports f hears client daemon =
    after (extract_params target_schema client.json tokens params.1 (no_params 1)) refl
      (extracted target_schema 1 client.json tokens params.1)
  where
    params : List Token × ℕ
    params = params_of client.current_request

    tokens : List Token
    tokens = params.0

    after :
        (r : Extracted)
        → extract_params target_schema client.json tokens params.1 (no_params 1) ≡ r
        → Sound target_schema client.json tokens r
        → Hears client (with_targets f daemon (target_list_of client tokens daemon.memory r)).0
          ⊎ (((with_targets f daemon (target_list_of client tokens daemon.memory r)).0 ≡ client)
              × IsUnreadable target_schema 1 client)
    after Extracted.exhausted e s = absurd s
    after (Extracted.invalid out) e s = inl (Hears-invalid_params client)
    after (Extracted.valid out) e s =
        elim (with_targets-Hears f client daemon tokens out _ hears
          (target_list_of-Listened client tokens daemon.memory out)) [
            | inl k ↦ inl k
            | inr k ↦ inr (k.0, (out, e, inl k.1))
          ]

-- A chain of tests that comes to NULL has a first one that does.
pub first_null :
    {A B P : Type 0} (m : Taken A) (f : A → Taken B)
    → (m >>= f) ≡ null
    → (m ≡ null → P)
    → ((a : A) → f a ≡ null → P)
    → P
first_null null f h now later = now refl
first_null refused f h now later = cc
first_null (taken a) f h now later = later a h

pub param_text-null :
    (client : Client) (tokens : List Token) (out : Output) (slot : ℕ)
    → param_text client tokens out slot ≡ null
    → get_or out.values slot none ≡ none
param_text-null client tokens out slot h = elim (Option-cases (get_or out.values slot none)) [
  | inl e ↦ e
  | inr (ti, e) ↦ absurd (let f = rw (e, param_text) at h in not_null f)
]
  where
    not_null : {s : List ℕ} → taken s ≡ null → ⊥
    not_null h = cc

pub parse_int-taken : (accepts : ℤ → Bool) (s : List ℕ) → ¬ (parse_int accepts s ≡ null)
unfolding parse_int
parse_int-taken accepts s h =
    elim (Bool-cases (accepts (to_int (strtol s).value) && not (strtol s).out_of_range)) [
      | inl e ↦ let f : taken (to_int (strtol s).value) ≡ null = rw (e, parse_int) at h in cc
      | inr e ↦ let f : ◌≡◌ {A = Taken ℤ} refused null = rw (e, parse_int) at h in cc
    ]
