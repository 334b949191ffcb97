-- ===== src/Jsonrpc/Numbers/Range.antt =====
-- Numbers that lgtd_jsonrpc_type_float_between_0_and_1 accepts, converted.
use mathlib.Core.Path.{subst}
use lightsd.Common.{
  ℕ, ◌+◌, ◌-◌, ◌*◌, ◌/◌, ◌≡◌, ◌≤◌, ◌<◌, ◌⊎◌, refl, sym, ap, ◌∙◌, inl, inr, List, [], ◌∷◌, Bool,
  true, false, ◌&&◌, ◌||◌, ltb, leb, ◌^◌, ◌==◌, Bool-cases, both_true, if◌then◌else◌, arith,
}
use lightsd.Jsonrpc.Tokens.{Token, token_bytes, is_primitive}
use lightsd.Jsonrpc.Types.{is_digit, float_chars, type_float_between_0_and_1}
use lightsd.Jsonrpc.Numbers.{
  Parsed, float_prec, digits, strtol, skip_spaces, after_sign, to_long, fraction_part,
  float_range_to_uint16,
}
use lightsd.Common.Int.{pos, add-pos}
use lightsd.Jsonrpc.Numbers.Fraction.{or_false, fraction-float_chars}

-- Behind a point.
module _ (c : ℕ) (cs : List ℕ) (one : Bool) (acc : ℕ) where
  digits-point : (c == b'.') ≡ true → digits (c ∷ cs) acc ≡ (acc, c ∷ cs)
  unfolding digits
  digits-point e = let f : is_digit c ≡ false = ground arith in rw (f, digits) refl

  digits-digit : is_digit c ≡ true → digits (c ∷ cs) acc ≡ digits cs (acc * 10 + (c - b'0'))
  unfolding digits
  digits-digit e = rw (e, digits) refl

  float_chars-point :
      (c == b'.') ≡ true → float_chars (c ∷ cs) false one ≡ true → float_chars cs true one ≡ true
  unfolding float_chars
  float_chars-point e h =
      let f : (c == b'1') ≡ false = ground arith in
      let g : float_chars (c ∷ cs) false one ≡ float_chars cs true (one || false) =
        rw (e, f, float_chars) refl in
      ap (λ (b : Bool). float_chars cs true b) (sym (or_false one)) ∙ sym g ∙ h

-- A digit in front of the point: it is 0, or the first 1.
float_chars-digit :
    (c : ℕ) (cs : List ℕ) (one : Bool)
    → (c == b'.') ≡ false
    → float_chars (c ∷ cs) false one ≡ true
    → (one ≡ false)
      × (((c ≡ b'1') × (float_chars cs false true ≡ true))
          ⊎ ((c ≡ b'0') × (float_chars cs false false ≡ true)))
unfolding float_chars
float_chars-digit c cs true e h =
    let f : float_chars (c ∷ cs) false true ≡ false = rw (e, float_chars) refl in
    let g : false ≡ true = sym f ∙ h in cc
float_chars-digit c cs false e h = elim (Bool-cases (c == b'1')) [
  | inl f ↦
      let g : float_chars (c ∷ cs) false false ≡ float_chars cs false true =
        rw (e, f, float_chars) refl in
      (refl, inl (ground arith, sym g ∙ h))
  | inr f ↦ elim (Bool-cases (c == b'0')) [
    | inl k ↦
        let g : float_chars (c ∷ cs) false false ≡ float_chars cs false false =
          rw (e, f, k, float_chars) refl in
        (refl, inr (ground arith, sym g ∙ h))
    | inr k ↦
        let g : float_chars (c ∷ cs) false false ≡ false = rw (e, f, k, float_chars) refl in
        let l : false ≡ true = sym g ∙ h in cc
  ]
]

-- The number in front of the point and the fraction behind it.
abbrev AtMostOne : ℕ × List ℕ → Type 0
AtMostOne (v, rest) = (r : ℕ) × (fraction_part rest ≡ pos r) × (v * float_prec + r ≤ float_prec)

fraction_part-point :
    (c : ℕ) (cs : List ℕ) (one : Bool) (acc : ℕ)
    → (c == b'.') ≡ true
    → acc ≡ (if one then 1 else 0)
    → float_chars cs true one ≡ true
    → AtMostOne (acc, c ∷ cs)
fraction_part-point c cs one acc e n h =
    let (r, f, lt, only) = fraction-float_chars cs one 100000 (omega arith) h in
    (r, rw (e, fraction_part) f, le one n lt only)
  where
    le :
        {r : ℕ} (one : Bool)
        → acc ≡ (if one then 1 else 0)
        → r < 10 * 100000
        → (one ≡ true → r ≡ 0)
        → acc * float_prec + r ≤ float_prec
    le true n lt only = let z = only refl in omega arith
    le false n lt only = omega arith

digits-float_chars :
    (cs : List ℕ) (one : Bool) (acc : ℕ)
    → acc ≡ (if one then 1 else 0)
    → float_chars cs false one ≡ true
    → AtMostOne (digits cs acc)
unfolding digits
digits-float_chars [] true acc e h = (0, refl, omega arith)
digits-float_chars [] false acc e h = (0, refl, omega arith)
digits-float_chars (c ∷ cs) one acc e h = elim (Bool-cases (c == b'.')) [
  | inl f ↦
      subst AtMostOne (sym (digits-point c cs one acc f))
        (fraction_part-point c cs one acc f e (float_chars-point c cs one acc f h))
  | inr f ↦
      let (none_yet, digit) = float_chars-digit c cs one f h in
      let z : acc ≡ 0 = e ∙ ap (λ (b : Bool). if b then 1 else 0) none_yet in
      elim digit [
        | inl (g, k) ↦
            subst AtMostOne (sym (digits-digit c cs one acc (ground arith)))
              (digits-float_chars cs true (acc * 10 + (c - b'0')) (omega arith) k)
        | inr (g, k) ↦
            subst AtMostOne (sym (digits-digit c cs one acc (ground arith)))
              (digits-float_chars cs false (acc * 10 + (c - b'0')) (omega arith) k)
      ]
]

-- Digits and points begin with neither a space nor a sign.
module _ (c : ℕ) (cs : List ℕ) where
  skip_spaces-text : 45 < c → skip_spaces (c ∷ cs) ≡ c ∷ cs
  unfolding skip_spaces
  skip_spaces-text h =
      let e : ((c == b' ') || (leb 9 c && leb c 13)) ≡ false = ground arith in
      rw (e, skip_spaces) refl

  after_sign-text : 45 < c → after_sign (c ∷ cs) ≡ (false, c ∷ cs)
  after_sign-text h =
      let e : (c == b'-') ≡ false = ground arith in
      let f : (c == b'+') ≡ false = ground arith in rw (e, f) refl

  pub strtol-digit :
      45 < c → is_digit c ≡ true → strtol (c ∷ cs) ≡ to_long false (digits (c ∷ cs) 0)
  unfolding strtol
  strtol-digit h d = rw (strtol, skip_spaces-text h, after_sign-text h, d) refl

  pub strtol-point :
      45 < c
      → is_digit c ≡ false
      → strtol (c ∷ cs) ≡ record { value = pos 0; rest = c ∷ cs; out_of_range = false }
  unfolding strtol
  strtol-point h d = rw (strtol, skip_spaces-text h, after_sign-text h, d) refl

abbrev pub parsed : ℕ × List ℕ → Parsed
parsed (v, rest) = record { value = pos v; rest = rest; out_of_range = false }

to_long-small : (p : ℕ × List ℕ) → p.0 < 2 ^ 63 → to_long false p ≡ parsed p
to_long-small (v, rest) h = let e : ltb v (2 ^ 63) ≡ true = ground arith in rw (e) refl

-- On such a text, strtol reads the digits.
strtol-float_chars :
    (s : List ℕ)
    → float_chars s false false ≡ true
    → (digits s 0).0 < 2 ^ 63
    → strtol s ≡ parsed (digits s 0)
unfolding strtol skip_spaces digits
strtol-float_chars [] h small = refl
strtol-float_chars (c ∷ cs) h small = elim (Bool-cases (c == b'.')) [
  | inl p ↦
      strtol-point c cs (ground arith) (ground arith)
      ∙ ap parsed (sym (digits-point c cs false 0 p))
  | inr p ↦
      let d : (c ≡ b'1') ⊎ (c ≡ b'0') = one_or_zero (float_chars-digit c cs false p h).1 in
      strtol-digit c cs (ground arith) (ground arith) ∙ to_long-small (digits (c ∷ cs) 0) small
]
  where
    one_or_zero : {A B : Type 0} → ((c ≡ b'1') × A) ⊎ ((c ≡ b'0') × B) → (c ≡ b'1') ⊎ (c ≡ b'0')
    one_or_zero (inl (e, a)) = inl e
    one_or_zero (inr (e, b)) = inr e

float_range_to_uint16-float_chars :
    (s : List ℕ)
    → float_chars s false false ≡ true
    → (n : ℕ) × (float_range_to_uint16 s 1 ≡ pos n) × (n ≤ 65535)
unfolding float_range_to_uint16
float_range_to_uint16-float_chars s h =
    let (r, f, le) = digits-float_chars s false 0 refl h in
    let e = strtol-float_chars s h (omega arith) in
    (
      ((digits s 0).0 * float_prec + r) * 65535 / (1 * float_prec),
      rw (e, float_range_to_uint16, f, add-pos ((digits s 0).0 * float_prec) r) refl,
      omega arith,
    )

-- The text of a token that lgtd_jsonrpc_type_float_between_0_and_1 accepts is converted, with the range
-- from 0 to 1, to a number of 16 bits, which is not negative.
pub float_range_to_uint16-bounded :
    (t : Token) (json : List ℕ)
    → type_float_between_0_and_1 t json ≡ true
    → (n : ℕ) × (float_range_to_uint16 (token_bytes json t) 1 ≡ pos n) × (n ≤ 65535)
unfolding type_float_between_0_and_1
float_range_to_uint16-bounded t json h =
    float_range_to_uint16-float_chars (token_bytes json t) (both_true (is_primitive t.type) _ h).1
