-- ===== src/Jsonrpc/Methods/Ranges.antt =====
-- What lgtd_jsonrpc_check_and_call_set_light_from_hsbk hands to core/proto.c.
use mathlib.Core.Path.{subst}
use lightsd.Common.{
  ℕ, ◌^◌, ◌≡◌, ◌≤◌, ◌<◌, refl, sym, ◌∙◌, inl, inr, List, Any, Bool, true, not, ◌&&◌, none, some,
  get_or, get_or-replicate, ltb, Bool-cases, Option-cases, both_true, arith,
}
use lightsd.Common.Int.{ℤ, pos, negsuc, leb_ℤ, wrapped, to_int}
use lightsd.Jsonrpc.Tokens.{Token, token_at, token_bytes}
use lightsd.Jsonrpc.Types.{type_float_between_0_and_1}
use lightsd.Jsonrpc.Numbers.{strtol, float_range_to_uint16, type_float_between_0_and_360}
use lightsd.Jsonrpc.Numbers.Range.{float_range_to_uint16-bounded}
use lightsd.Jsonrpc.Numbers.Hue.{NoSign, float_range_to_uint16-hue}
use lightsd.Jsonrpc.Schema.{Output, Extracted, extract_params}
use lightsd.Jsonrpc.Schema.Stored.{Accepts, Justified, none-some}
use lightsd.Jsonrpc.Schema.Array.{extract_params-Sound}
use lightsd.Jsonrpc.Client.{Client}
use lightsd.Jsonrpc.Methods.Params.{
  Taken, null, refused, taken, ◌>>=◌, no_params, param_text, parse_int, is_kelvin, is_natural,
}
use lightsd.Jsonrpc.Methods.Light.{Hsbk, light_schema, parse_transition, parse_hsbk}

>>=-taken :
    {A B : Type 0} (m : Taken A) (f : A → Taken B) (b : B)
    → (m >>= f) ≡ taken b
    → (a : A) × (m ≡ taken a) × (f a ≡ taken b)
>>=-taken null f b h = cc
>>=-taken refused f b h = cc
>>=-taken (taken a) f b h = (a, refl, h)

param_text-taken :
    (client : Client) (tokens : List Token) (out : Output) (slot : ℕ) (s : List ℕ)
    → param_text client tokens out slot ≡ taken s
    → (ti : ℕ) × (get_or out.values slot none ≡ some ti)
      × (token_bytes client.json (token_at tokens ti) ≡ s)
param_text-taken client tokens out slot s h = elim (Option-cases (get_or out.values slot none)) [
  | inl e ↦ let f : null ≡ taken s = rw (e, param_text) at h in cc
  | inr (ti, e) ↦
      let f : taken (token_bytes client.json (token_at tokens ti)) ≡ taken s =
        rw (e, param_text) at h in
      (ti, e, cc)
]

parse_int-accepted :
    (accepts : ℤ → Bool) (s : List ℕ) (v : ℤ)
    → parse_int accepts s ≡ taken v
    → (accepts v ≡ true) × (to_int (strtol s).value ≡ v)
unfolding parse_int
parse_int-accepted accepts s v h =
    elim (Bool-cases (accepts (to_int (strtol s).value) && not (strtol s).out_of_range)) [
      | inl e ↦
          let f : taken (to_int (strtol s).value) ≡ taken v = rw (e, parse_int) at h in
          let g : to_int (strtol s).value ≡ v = cc in
          (rw g at (both_true (accepts (to_int (strtol s).value)) _ e).0, g)
      | inr e ↦ let f : refused ≡ taken v = rw (e, parse_int) at h in cc
    ]

is_kelvin-range : (v : ℤ) → is_kelvin v ≡ true → (k : ℕ) × (v ≡ pos k) × (2500 ≤ k) × (k ≤ 9000)
is_kelvin-range (pos k) h =
    let (low, high) = both_true (leb_ℤ (pos 2500) (pos k)) (leb_ℤ (pos k) (pos 9000)) h in
    (k, refl, ground arith, ground arith)
is_kelvin-range (negsuc k) h =
    let (low, high) = both_true (leb_ℤ (pos 2500) (negsuc k)) (leb_ℤ (negsuc k) (pos 9000)) h in
    absurd (ground arith)

to_int-range : (v : ℤ) → is_natural (to_int v) ≡ true → (n : ℕ) × (to_int v ≡ pos n) × (n < 2 ^ 31)
unfolding to_int
to_int-range v h = elim (Bool-cases (ltb (wrapped (2 ^ 32) v) (2 ^ 31))) [
  | inl e ↦ (wrapped (2 ^ 32) v, rw (e, to_int) refl, ground arith)
  | inr e ↦ let f = rw (e, to_int) at h in absurd (ground arith)
]

module _ (json : List ℕ) (tokens : List Token) (ti : ℕ) where
  hue_node :
      Any (Accepts json tokens 1 ti) light_schema
      → type_float_between_0_and_360 (token_at tokens ti) json ≡ true
  hue_node h = ground arith

  saturation_node :
      Any (Accepts json tokens 2 ti) light_schema
      → type_float_between_0_and_1 (token_at tokens ti) json ≡ true
  saturation_node h = ground arith

  brightness_node :
      Any (Accepts json tokens 3 ti) light_schema
      → type_float_between_0_and_1 (token_at tokens ti) json ≡ true
  brightness_node h = ground arith

taken_inj : {a b : Hsbk} → taken a ≡ taken b → a ≡ b
taken_inj e = cc

-- A value of an unsigned field of 16 bits.
abbrev pub IsU16 : ℤ → Type 0
IsU16 v = (n : ℕ) × (v ≡ pos n) × (n ≤ 65535)

-- What lgtd_proto_set_light_from_hsbk asserts of its arguments.
pub record InRange (args : Hsbk) : Type 0 where
  pub hue : IsU16 args.hue
  pub saturation : IsU16 args.saturation
  pub brightness : IsU16 args.brightness
  pub kelvin : (k : ℕ) × (args.kelvin ≡ pos k) × (2500 ≤ k) × (k ≤ 9000)
  pub transition : (t : ℕ) × (args.transition ≡ pos t) × (t < 2 ^ 31)

module _ (client : Client) (tokens : List Token) (out : Output) where
  parse_transition-range :
      (v : ℤ) → parse_transition client tokens out ≡ taken v → (t : ℕ) × (v ≡ pos t) × (t < 2 ^ 31)
  parse_transition-range v h = elim (Option-cases (get_or out.values 5 none)) [
    | inl e ↦
        let f : taken (pos 0) ≡ taken v = rw (e, parse_transition) at h in (0, cc, omega arith)
    | inr (ti, e) ↦
        let s = token_bytes client.json (token_at tokens ti) in
        let f : parse_int is_natural s ≡ taken v = rw (e, parse_transition) at h in
        let (natural, g) = parse_int-accepted is_natural s v f in
        let (t, k, lt) = to_int-range (strtol s).value (rw (← g) at natural) in (t, sym g ∙ k, lt)
  ]

  unit_range :
      (slot : ℕ) (s : List ℕ)
      → ((ti : ℕ)
          → get_or out.values slot none ≡ some ti
          → type_float_between_0_and_1 (token_at tokens ti) client.json ≡ true)
      → param_text client tokens out slot ≡ taken s
      → IsU16 (float_range_to_uint16 s 1)
  unit_range slot s typed h =
      let (ti, e, f) = param_text-taken client tokens out slot s h in
      rw (← f) (float_range_to_uint16-bounded (token_at tokens ti) client.json (typed ti e))

  hue_range :
      (s : List ℕ)
      → Justified light_schema client.json tokens out
      → ((ti : ℕ)
          → get_or out.values 1 none ≡ some ti
          → NoSign (token_bytes client.json (token_at tokens ti)))
      → param_text client tokens out 1 ≡ taken s
      → IsU16 (float_range_to_uint16 s 360)
  hue_range s just unsigned h =
      let (ti, e, f) = param_text-taken client tokens out 1 s h in
      rw (← f) (
        float_range_to_uint16-hue (token_at tokens ti) client.json (unsigned ti e)
          (hue_node client.json tokens ti (just 1 ti e)))

  parse_hsbk-InRange :
      (args : Hsbk)
      → Justified light_schema client.json tokens out
      → ((ti : ℕ)
          → get_or out.values 1 none ≡ some ti
          → NoSign (token_bytes client.json (token_at tokens ti)))
      → parse_hsbk client tokens out ≡ taken args
      → InRange args
  unfolding parse_hsbk
  parse_hsbk-InRange args just unsigned p0 =
      let text : ℕ → Taken (List ℕ) = param_text client tokens out in
      let (h, eh, p1) = >>=-taken (text 1) _ args p0 in
      let (s, es, p2) = >>=-taken (text 2) _ args p1 in
      let (b, eb, p3) = >>=-taken (text 3) _ args p2 in
      let (kt, ek, p4) = >>=-taken (text 4) _ args p3 in
      let (k, fk, p5) = >>=-taken (parse_int is_kelvin kt) _ args p4 in
      let (t, ft, p6) = >>=-taken (parse_transition client tokens out) _ args p5 in
      let hue = hue_range h just unsigned eh in
      let saturation =
        unit_range 2 s (λ ti e. saturation_node client.json tokens ti (just 2 ti e)) es in
      let brightness =
        unit_range 3 b (λ ti e. brightness_node client.json tokens ti (just 3 ti e)) eb in
      let kelvin = is_kelvin-range k (parse_int-accepted is_kelvin kt k fk).0 in
      let transition = parse_transition-range t ft in
      taken_InRange
        (record {
          hue = hue;
          saturation = saturation;
          brightness = brightness;
          kelvin = kelvin;
          transition = transition;
        })
        p6
    where
      taken_InRange : {a : Hsbk} → InRange a → taken a ≡ taken args → InRange args
      taken_InRange {a = a} r e = subst InRange (taken_inj e) r

-- The values that the method set_light_from_hsbk hands to core/proto.c are those that
-- lgtd_proto_set_light_from_hsbk asserts: the hue, the saturation and the brightness are not negative and
-- have 16 bits, the kelvin is between 2500 and 9000, and the transition is not negative; if the text of the
-- hue has no sign and no white space.
pub set_light_from_hsbk-InRange :
    (client : Client) (tokens : List Token) (ntokens : ℕ) (out : Output) (args : Hsbk)
    → extract_params light_schema client.json tokens ntokens (no_params 6) ≡ Extracted.valid out
    → ((ti : ℕ)
        → get_or out.values 1 none ≡ some ti
        → NoSign (token_bytes client.json (token_at tokens ti)))
    → parse_hsbk client tokens out ≡ taken args
    → InRange args
set_light_from_hsbk-InRange client tokens ntokens out args valid unsigned parsed =
    let sound =
      extract_params-Sound light_schema client.json tokens ntokens (no_params 6)
        (λ slot ti e. absurd (none-some (sym (get_or-replicate 6 slot none) ∙ e))) in
    let just : Justified light_schema client.json tokens out = rw valid at sound in
    parse_hsbk-InRange client tokens out args just unsigned parsed
