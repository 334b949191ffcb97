-- ===== src/Jsonrpc/Numbers/Fraction.antt =====
-- The digits behind the point of a number between 0 and 1.
use native.Mathlib.Nat.{mul-le-mul_right}
use lightsd.Common.{
  ℕ, ◌+◌, ◌-◌, ◌*◌, ◌/◌, ◌≡◌, ◌≤◌, ◌<◌, refl, sym, ap, ◌∙◌, inl, inr, List, [], ◌∷◌, Bool, true,
  false, not, ◌&&◌, ◌||◌, leb, ◌==◌, Bool-cases, if◌then◌else◌, arith,
}
use lightsd.Jsonrpc.Types.{is_digit, float_chars}
use lightsd.Jsonrpc.Numbers.{fraction}
use lightsd.Common.Int.{pos, add-pos}

refused_not : (b x : Bool) → (if b then false else x) ≡ true → (b ≡ false) × (x ≡ true)
refused_not true x h = cc
refused_not false x h = (refl, h)

pub not-false : (b : Bool) → not b ≡ false → b ≡ true
not-false true h = refl
not-false false h = cc

pub or_false : (b : Bool) → (b || false) ≡ b
or_false true = refl
or_false false = refl

-- A digit after the point, where only zeros may follow if `one`.
pub float_chars-fraction :
    (c : ℕ) (cs : List ℕ) (one : Bool)
    → float_chars (c ∷ cs) true one ≡ true
    → (is_digit c ≡ true) × ((one && not (c == b'0')) ≡ false) × (float_chars cs true one ≡ true)
unfolding float_chars
float_chars-fraction c cs one h =
    let (e, h1) = refused_not (c == b'.') _ h in
    let (f, h2) = refused_not (not (is_digit c)) _ h1 in
    let (g, h3) = refused_not (one && not (c == b'0')) _ h2 in
    (
      not-false (is_digit c) f,
      g,
      ap (λ (b : Bool). float_chars cs true b) (sym (or_false one)) ∙ h3,
    )

pub fraction-nil : (cs : List ℕ) (m : ℕ) → m ≡ 0 → fraction cs m ≡ pos 0
unfolding fraction
fraction-nil [] m e = refl
fraction-nil (c ∷ cs) m e = let f : (m == 0) ≡ true = ground arith in rw (f, fraction) refl

-- A sum of digits times multipliers, each a tenth of the one before, stays below ten times the first; it
-- is 0 where only zeros may follow.
pub fraction-float_chars :
    (cs : List ℕ) (one : Bool) (m : ℕ)
    → 0 < m
    → float_chars cs true one ≡ true
    → (r : ℕ) × (fraction cs m ≡ pos r) × (r < 10 * m) × (one ≡ true → r ≡ 0)
unfolding fraction
fraction-float_chars [] one m p h = (0, refl, omega arith, λ o. refl)
fraction-float_chars (c ∷ cs) one m p h =
    let (digit, zeros, more) = float_chars-fraction c cs one h in
    let e : (m == 0) ≡ false = ground arith in
    let f : leb b'0' c ≡ true = ground arith in
    let small : c - b'0' ≤ 9 = ground arith in
    let z : one ≡ true → c - b'0' ≡ 0 = λ o. zero_digit o zeros in
    elim (Bool-cases (m / 10 == 0)) [
      | inl g ↦
          let g' : m / 10 ≡ 0 = ground arith in
          (
            (c - b'0') * m + 0,
            rw (e, f, fraction-nil cs (m / 10) g', fraction) (add-pos _ _),
            bound small,
            λ o. product (z o),
          )
      | inr g ↦
          let (r, k, lt, only) = fraction-float_chars cs one (m / 10) (ground arith) more in
          (
            (c - b'0') * m + r,
            rw (e, f, k, fraction) (add-pos _ _),
            bound_more small lt,
            λ o. sum (z o) (only o),
          )
    ]
  where
    zero_digit : one ≡ true → (one && not (c == b'0')) ≡ false → c - b'0' ≡ 0
    zero_digit o zeros =
        let k : (c == b'0') ≡ true =
          not-false (c == b'0') (sym (ap (λ (b : Bool). b && not (c == b'0')) o) ∙ zeros) in
        ground arith

    times : c - b'0' ≤ 9 → (c - b'0') * m ≤ 9 * m
    times small = mul-le-mul_right m small

    bound : c - b'0' ≤ 9 → (c - b'0') * m + 0 < 10 * m
    bound small = omega (arith, times small)

    bound_more : {r : ℕ} → c - b'0' ≤ 9 → r < 10 * (m / 10) → (c - b'0') * m + r < 10 * m
    bound_more small lt = omega (arith, times small)

    product : c - b'0' ≡ 0 → (c - b'0') * m + 0 ≡ 0
    product e = rw e (omega arith)

    sum : {r : ℕ} → c - b'0' ≡ 0 → r ≡ 0 → (c - b'0') * m + r ≡ 0
    sum e f = rw (e, f) (omega arith)
