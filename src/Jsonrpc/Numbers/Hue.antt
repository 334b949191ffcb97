-- ===== src/Jsonrpc/Numbers/Hue.antt =====
-- Numbers that lgtd_jsonrpc_type_float_between_0_and_360 accepts, converted.
use lightsd.Common.{
  ℕ, ◌+◌, ◌-◌, ◌*◌, ◌/◌, ◌^◌, ◌≡◌, ◌≤◌, ◌<◌, ◌⊎◌, refl, sym, ap, ◌∙◌, inl, inr, List, [], ◌∷◌, Bool,
  true, false, not, ◌||◌, ltb, leb, ◌==◌, Bool-cases, both_true, All, arith,
}
use native.Mathlib.Nat.{mul-le-mul_right}
use lightsd.Common.Int.{pos, add-pos, leb_ℤ, ltb_ℤ}
use lightsd.Jsonrpc.Tokens.{Token, token_bytes, is_primitive}
use lightsd.Jsonrpc.Types.{is_digit, char_at}
use lightsd.Jsonrpc.Numbers.{
  Parsed, float_prec, digits, strtol, skip_spaces, to_long, is_end, is_zero, accepts_intpart,
  accepts_fracpart, type_float_between_0_and_360, fraction, fraction_part, float_range_to_uint16,
}
use lightsd.Jsonrpc.Numbers.Fraction.{fraction-nil}
use lightsd.Jsonrpc.Numbers.Range.{parsed, strtol-digit, strtol-point}

abbrev AllDigits : List ℕ → Type 0
AllDigits = All (λ (c : ℕ). is_digit c ≡ true)

-- Bytes behind the signs and the white space.
abbrev pub NoSign : List ℕ → Type 0
NoSign = All (λ (c : ℕ). b'-' < c)

digits-end : (cs : List ℕ) (acc : ℕ) → is_end (digits cs acc).1 ≡ true → AllDigits cs
unfolding digits
digits-end [] acc h = tt
digits-end (c ∷ cs) acc h = elim (Bool-cases (is_digit c)) [
  | inl e ↦ (e, digits-end cs (acc * 10 + (c - b'0')) (rw (e, digits) at h))
  | inr e ↦ let f : false ≡ true = rw (e, digits) at h in cc
]

digits-NoSign : (cs : List ℕ) (acc : ℕ) → NoSign cs → NoSign (digits cs acc).1
unfolding digits
digits-NoSign [] acc h = tt
digits-NoSign (c ∷ cs) acc (h, hs) = elim (Bool-cases (is_digit c)) [
  | inl e ↦ rw (e, digits) (digits-NoSign cs (acc * 10 + (c - b'0')) hs)
  | inr e ↦ rw (e, digits) (h, hs)
]

digits-le : (cs : List ℕ) (acc : ℕ) → acc ≤ (digits cs acc).0
unfolding digits
digits-le [] acc = omega arith
digits-le (c ∷ cs) acc = elim (Bool-cases (is_digit c)) [
  | inl e ↦ rw (e, digits) (omega (arith, digits-le cs (acc * 10 + (c - b'0'))))
  | inr e ↦ rw (e, digits) (omega arith)
]

fraction-AllDigits :
    (cs : List ℕ) (m : ℕ) → 0 < m → AllDigits cs → (r : ℕ) × (fraction cs m ≡ pos r) × (r < 10 * m)
unfolding fraction
fraction-AllDigits [] m p h = (0, refl, omega arith)
fraction-AllDigits (c ∷ cs) m p (h, hs) =
    let e : (m == 0) ≡ false = ground arith in
    let f : leb b'0' c ≡ true = ground arith in
    let small : c - b'0' ≤ 9 = ground arith in
    let times : (c - b'0') * m ≤ 9 * m = mul-le-mul_right m small in
    elim (Bool-cases (m / 10 == 0)) [
      | inl g ↦ (
        (c - b'0') * m + 0,
        rw (e, f, fraction-nil cs (m / 10) (ground arith), fraction) (add-pos _ _),
        omega (arith, times),
      )
      | inr g ↦
          let (r, k, lt) = fraction-AllDigits cs (m / 10) (ground arith) hs in
          ((c - b'0') * m + r, rw (e, f, k, fraction) (add-pos _ _), omega (arith, times, lt))
    ]

-- Where the digits make 0, nothing is added.
fraction-zeros : (cs : List ℕ) (m : ℕ) → AllDigits cs → (digits cs 0).0 ≡ 0 → fraction cs m ≡ pos 0
unfolding fraction digits
fraction-zeros [] m h z = refl
fraction-zeros (c ∷ cs) m (h, hs) z =
    let z' : (digits cs (0 * 10 + (c - b'0'))).0 ≡ 0 = rw (h, digits) at z in
    let first : c - b'0' ≡ 0 = omega (arith, z', digits-le cs (0 * 10 + (c - b'0'))) in
    let f : leb b'0' c ≡ true = ground arith in
    elim (Bool-cases (m == 0)) [
      | inl e ↦ rw (e, fraction) refl
      | inr e ↦
          rw (e, f, first, fraction, fraction-zeros cs (m / 10) hs (rw first at z'))
            (add-pos (0 * m) 0 ∙ ap pos (omega arith))
    ]

to_long-in_range :
    (p : ℕ × List ℕ) → (to_long false p).out_of_range ≡ false → to_long false p ≡ parsed p
to_long-in_range (v, rest) h = elim (Bool-cases (ltb v (2 ^ 63))) [
  | inl e ↦ rw e refl
  | inr e ↦ let f : true ≡ false = rw e at h in cc
]

strtol-NoSign :
    (s : List ℕ) → NoSign s → (strtol s).out_of_range ≡ false → strtol s ≡ parsed (digits s 0)
unfolding strtol skip_spaces digits
strtol-NoSign [] h ok = refl
strtol-NoSign (c ∷ cs) (h, hs) ok = elim (Bool-cases (is_digit c)) [
  | inl d ↦
      let e = strtol-digit c cs h d in
      e ∙ to_long-in_range (digits (c ∷ cs) 0) (ap (λ (p : Parsed). p.out_of_range) (sym e) ∙ ok)
  | inr d ↦
      let f : digits (c ∷ cs) 0 ≡ (0, c ∷ cs) = rw (d, digits) refl in
      strtol-point c cs h d ∙ ap parsed (sym f)
]

not-true : (b : Bool) → not b ≡ true → b ≡ false
not-true false h = refl
not-true true h = cc

-- What is added for the part behind the point: less than a million, and 0 at 360.
abbrev Fits : ℕ → List ℕ → Type 0
Fits v rest = (r : ℕ) × (fraction_part rest ≡ pos r) × (v * float_prec + r ≤ 360 * float_prec)

module _ (v : ℕ) (below : v ≤ 360) where
  behind_point :
      (frac : List ℕ)
      → AllDigits frac
      → (v < 360) ⊎ ((digits frac 0).0 ≡ 0)
      → (r : ℕ) × (fraction frac (float_prec / 10) ≡ pos r)
        × (v * float_prec + r ≤ 360 * float_prec)
  behind_point frac all (inl lt) =
      let (r, e, small) = fraction-AllDigits frac (float_prec / 10) (omega arith) all in
      (r, e, omega arith)
  behind_point frac all (inr z) = (0, fraction-zeros frac (float_prec / 10) all z, omega arith)

  fraction_part-Fits :
      (rest : List ℕ)
      → NoSign rest
      → (is_end rest || (char_at rest 0 == b'.')) ≡ true
      → accepts_fracpart (pos v) rest ≡ true
      → Fits v rest
  fraction_part-Fits [] h point ok = (0, refl, omega arith)
  fraction_part-Fits (d ∷ frac) (h, hs) point ok =
      let (end, ok1) = both_true (is_end (strtol frac).rest) _ ok in
      let (long, ok2) = both_true (not (strtol frac).out_of_range) _ ok1 in
      let (sign, ok3) = both_true (leb_ℤ (pos 0) (strtol frac).value) _ ok2 in
      let e = strtol-NoSign frac hs (not-true _ long) in
      let all : AllDigits frac = digits-end frac 0 (rw e at end) in
      let last : (ltb_ℤ (pos v) (pos 360) || is_zero (pos (digits frac 0).0)) ≡ true =
        rw e at ok3 in
      rw point (behind_point frac all (limit (digits frac 0).0 last))
    where
      limit : (n : ℕ) → (ltb_ℤ (pos v) (pos 360) || is_zero (pos n)) ≡ true → (v < 360) ⊎ (n ≡ 0)
      limit n h = elim (Bool-cases (ltb (v + 0) (360 + 0))) [
        | inl e ↦ inl (ground arith)
        | inr e ↦ inr (ground arith)
      ]

converted :
    (s : List ℕ) (p : ℕ × List ℕ) (r : ℕ)
    → strtol s ≡ parsed p
    → fraction_part p.1 ≡ pos r
    → float_range_to_uint16 s 360 ≡ pos ((p.0 * float_prec + r) * 65535 / (360 * float_prec))
unfolding float_range_to_uint16
converted s (v, rest) r e f = rw (e, float_range_to_uint16, f, add-pos (v * float_prec) r) refl

-- The text of a token that lgtd_jsonrpc_type_float_between_0_and_360 accepts is converted, with the range
-- from 0 to 360, to a number of 16 bits, which is not negative, if the text has no sign and no white space.
pub float_range_to_uint16-hue :
    (t : Token) (json : List ℕ)
    → NoSign (token_bytes json t)
    → type_float_between_0_and_360 t json ≡ true
    → (n : ℕ) × (float_range_to_uint16 (token_bytes json t) 360 ≡ pos n) × (n ≤ 65535)
unfolding type_float_between_0_and_360
float_range_to_uint16-hue t json h ok =
    let s = token_bytes json t in
    let c : ℕ = char_at json t.start in
    let (primitive, ok1) = both_true (is_primitive t.type) _ ok in
    let (first, ok2) = both_true ((c == b'-') || is_digit c) _ ok1 in
    let (int, frac) = both_true (accepts_intpart c (strtol s)) _ ok2 in
    let (point, ok3) =
      both_true (is_end (strtol s).rest || (char_at (strtol s).rest 0 == b'.')) _ int in
    let (long, ok4) = both_true (not (strtol s).out_of_range) _ ok3 in
    let (sign, ok5) = both_true (leb_ℤ (pos 0) (strtol s).value) _ ok4 in
    let (limit, ok6) = both_true (leb_ℤ (strtol s).value (pos 360)) _ ok5 in
    let e = strtol-NoSign s h (not-true _ long) in
    let v : ℕ = (digits s 0).0 in
    let limit' : leb_ℤ (pos v) (pos 360) ≡ true = rw e at limit in
    let (r, f, le) =
      fraction_part-Fits v (ground arith) (digits s 0).1 (digits-NoSign s 0 h) (rw e at point)
        (rw e at frac) in
    ((v * float_prec + r) * 65535 / (360 * float_prec), converted s (digits s 0) r e f, omega arith)
