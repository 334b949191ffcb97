-- ===== src/Jsonrpc/Numbers.antt =====
-- The tests of jsonrpc.c on numbers that need strtol, and lgtd_jsonrpc_float_range_to_uint16, whose range
-- starts at 0 wherever the source calls it. They read the bytes of a token; what stands behind the token
-- of a primitive is a space, a comma or a bracket, where strtol stops as at the end of the bytes.
pub mod Fraction
pub mod Range
pub mod Hue
use lightsd.Common.{
  ℕ, zero, suc, ◌+◌, ◌-◌, ◌*◌, ◌/◌, ◌^◌, List, [], ◌∷◌, Bool, true, false, not, ◌&&◌, ◌||◌, ltb,
  leb, ◌==◌, if◌then◌else◌,
}
use lightsd.Common.Int.{ℤ, pos, sub_ℕ, ◌+ℤ◌, ltb_ℤ, leb_ℤ, scale, quotient}
use lightsd.Jsonrpc.Tokens.{Token, token_bytes, is_primitive}
use lightsd.Jsonrpc.Types.{is_digit, char_at}

-- LGTD_JSONRPC_FLOAT_PREC
abbrev pub float_prec : ℕ
float_prec = 1000000

-- The digits at the beginning of a text, behind those of `acc`, and what is behind them.
unfoldable pub digits : List ℕ → ℕ → ℕ × List ℕ
digits [] acc = (acc, [])
digits (c ∷ cs) acc =
    let rest = digits cs (acc * 10 + (c - b'0')) in if is_digit c then rest else (acc, c ∷ cs)

-- What strtol gives: a long, the text behind it, and whether errno is ERANGE.
pub record Parsed : Type 0 where
  pub value : ℤ
  pub rest : List ℕ
  pub out_of_range : Bool

unfoldable pub skip_spaces : List ℕ → List ℕ
skip_spaces [] = []
skip_spaces (c ∷ cs) =
    let rest = skip_spaces cs in if (c == b' ') || (leb 9 c && leb c 13) then rest else c ∷ cs

-- Is there a minus, and what is behind a sign?
abbrev pub after_sign : List ℕ → Bool × List ℕ
after_sign [] = (false, [])
after_sign (c ∷ cs) =
    if c == b'-' then (true, cs) else if c == b'+' then (false, cs) else (false, c ∷ cs)

abbrev pub begins_with_digit : List ℕ → Bool
begins_with_digit [] = false
begins_with_digit (c ∷ cs) = is_digit c

-- A long has 64 bits.
abbrev pub to_long : Bool → ℕ × List ℕ → Parsed
to_long false (n, rest) =
    if ltb n (2 ^ 63)
    then record { value = pos n; rest = rest; out_of_range = false }
    else record { value = pos (2 ^ 63 - 1); rest = rest; out_of_range = true }
to_long true (n, rest) =
    if leb n (2 ^ 63)
    then record { value = sub_ℕ 0 n; rest = rest; out_of_range = false }
    else record { value = sub_ℕ 0 (2 ^ 63); rest = rest; out_of_range = true }

-- strtol in base 10
unfoldable pub strtol : List ℕ → Parsed
strtol s =
    let (minus, t) = after_sign (skip_spaces s) in
    if begins_with_digit t
    then to_long minus (digits t 0)
    else record { value = pos 0; rest = s; out_of_range = false }

abbrev pub is_end : List ℕ → Bool
is_end [] = true
is_end (c ∷ cs) = false

abbrev pub is_zero : ℤ → Bool
is_zero (pos n) = n == 0
is_zero _ = false

-- lgtd_jsonrpc_type_integer
unfoldable pub type_integer : Token → List ℕ → Bool
type_integer t json =
    is_primitive t.type
    && (let p = strtol (token_bytes json t) in is_end p.rest && not p.out_of_range)

-- The part in front of the point, and what stands behind it.
abbrev pub accepts_intpart : ℕ → Parsed → Bool
accepts_intpart c p =
    (is_end p.rest || (char_at p.rest 0 == b'.'))
    && (not p.out_of_range
        && (leb_ℤ (pos 0) p.value
            && (leb_ℤ p.value (pos 360) && not (is_zero p.value && (c == b'-')))))

abbrev pub accepts_fracpart : ℤ → List ℕ → Bool
accepts_fracpart intpart [] = true
accepts_fracpart intpart (dot ∷ fraction) =
    let p = strtol fraction in
    is_end p.rest
    && (not p.out_of_range
        && (leb_ℤ (pos 0) p.value && (ltb_ℤ intpart (pos 360) || is_zero p.value)))

-- lgtd_jsonrpc_type_float_between_0_and_360
unfoldable pub type_float_between_0_and_360 : Token → List ℕ → Bool
type_float_between_0_and_360 t json =
    let c : ℕ = char_at json t.start in
    let p = strtol (token_bytes json t) in
    is_primitive t.type
    && (((c == b'-') || is_digit c) && (accepts_intpart c p && accepts_fracpart p.value p.rest))

-- The loop over the characters behind the point.
unfoldable pub fraction : List ℕ → ℕ → ℤ
fraction [] multiplier = pos 0
fraction (c ∷ cs) multiplier =
    let rest = fraction cs (multiplier / 10) in
    if multiplier == 0 then pos 0 else scale (sub_ℕ c b'0') multiplier +ℤ rest

-- The part behind the point, if one is there.
abbrev pub fraction_part : List ℕ → ℤ
fraction_part [] = pos 0
fraction_part (c ∷ cs) = if c == b'.' then fraction cs (float_prec / 10) else pos 0

-- lgtd_jsonrpc_float_range_to_uint16 with a start of 0
unfoldable pub float_range_to_uint16 : List ℕ → ℕ → ℤ
float_range_to_uint16 s stop =
    let p = strtol s in
    quotient (scale (scale p.value float_prec +ℤ fraction_part p.rest) 65535) (stop * float_prec)
