-- ===== src/Common/Bits/Words.antt =====
-- Words of `w` bits: shifts, masks and complement, read bit by bit.
use native.Mathlib.Nat.{pow-suc, suc-le-suc_iff}
use Prim.Native.Nat.{ℕ, zero, suc, ◌+◌, ◌-◌, ◌*◌, ◌/◌, ◌%◌, ◌^◌, ◌≤◌, ◌<◌, bit_and, bit_or, bit_xor}
use mathlib.Core.Path.{◌≡◌, ap, ◌∙◌}
use native.Mathlib.Omega.{arith}
use lightsd.Common.Bits.Digits.{zero-bit_and, bit_and-zero, bit_and_low, bit_or_low, bit_xor_low}
use lightsd.Common.Bits.{bit, zero-bit}

pub pow_pos : (w : ℕ) → 0 < 2 ^ w
pow_pos zero = omega arith
pow_pos (suc w) = omega (arith, pow-suc 2 w, pow_pos w)

pub pow_mono : (k w : ℕ) → k ≤ w → 2 ^ k ≤ 2 ^ w
pow_mono zero w h = pow_pos w
pow_mono (suc k) zero h = elim h [ ]
pow_mono (suc k) (suc w) h = omega (arith, pow-suc 2 k, pow-suc 2 w, pow_mono k w (omega arith))

pub pow_lt : (k w : ℕ) → k < w → 2 ^ k < 2 ^ w
pow_lt k w h = omega (arith, pow_mono (suc k) w h, pow-suc 2 k, pow_pos k)

-- A shift to the left.
pub bit-shift_low : (n s i : ℕ) → i < s → bit (n * 2 ^ s) i ≡ 0
unfolding bit
bit-shift_low n zero i h = elim h [ ]
bit-shift_low n (suc s) zero h = omega (arith, ap (λ (t : ℕ). n * t) (pow-suc 2 s))
bit-shift_low n (suc s) (suc i) h =
    let e : n * 2 ^ suc s / 2 ≡ n * 2 ^ s = omega (arith, ap (λ (t : ℕ). n * t) (pow-suc 2 s)) in
    rw e (bit-shift_low n s i (omega arith))

pub bit-shift_high : (n s i : ℕ) → bit (n * 2 ^ s) (s + i) ≡ bit n i
unfolding bit
bit-shift_high n zero i =
    let e : n * 2 ^ 0 ≡ n = omega arith in let f : 0 + i ≡ i = omega arith in rw (e, f)
bit-shift_high n (suc s) i =
    let f : suc s + i ≡ suc (s + i) = omega arith in
    let e : n * 2 ^ suc s / 2 ≡ n * 2 ^ s = omega (arith, ap (λ (t : ℕ). n * t) (pow-suc 2 s)) in
    let g : bit (n * 2 ^ suc s / 2) (s + i) ≡ bit n i = rw e (bit-shift_high n s i) in rw f g

half-mod : (n m : ℕ) → 0 < m → (n % (2 * m)) / 2 ≡ (n / 2) % m
half-mod n m h = grind arith

low-mod : (n m : ℕ) → 0 < m → (n % (2 * m)) % 2 ≡ n % 2
low-mod n m h = grind arith

-- A remainder by 2 ^ w keeps the low bits.
pub bit-mod_pow : (n w i : ℕ) → i < w → bit (n % 2 ^ w) i ≡ bit n i
unfolding bit
bit-mod_pow n zero i h = elim h [ ]
bit-mod_pow n (suc w) zero h =
    let e : 2 ^ suc w ≡ 2 * 2 ^ w = omega (arith, pow-suc 2 w) in
    let g : (n % 2 ^ suc w) % 2 ≡ n % 2 = rw e (low-mod n (2 ^ w) (pow_pos w)) in g
bit-mod_pow n (suc w) (suc i) h =
    let e : (n % 2 ^ suc w) / 2 ≡ (n / 2) % 2 ^ w =
      let d : 2 ^ suc w ≡ 2 * 2 ^ w = omega (arith, pow-suc 2 w) in
      rw d (half-mod n (2 ^ w) (pow_pos w)) in
    rw e (bit-mod_pow (n / 2) w i (suc-le-suc_iff.0 h))

-- The complement `~x` of a word.
pub bit-complement : (w x i : ℕ) → x < 2 ^ w → i < w → bit (2 ^ w - 1 - x) i ≡ 1 - bit x i
unfolding bit
bit-complement zero x i hx hi = elim hi [ ]
bit-complement (suc w) x zero hx hi = omega (arith, pow-suc 2 w, pow_pos w)
bit-complement (suc w) x (suc i) hx hi =
    let e : (2 ^ suc w - 1 - x) / 2 ≡ 2 ^ w - 1 - x / 2 = omega (arith, pow-suc 2 w, pow_pos w) in
    rw e (bit-complement w (x / 2) i (omega (arith, pow-suc 2 w)) (omega arith))

-- The operations stay within the width.
pub bit_and_lt : (w a b : ℕ) → a < 2 ^ w → bit_and a b < 2 ^ w
bit_and_lt zero a b h = let e : a ≡ 0 = omega arith in rw e (omega (arith, zero-bit_and b))
bit_and_lt (suc w) a b h =
    omega (
      arith,
      bit_and_low a b,
      pow-suc 2 w,
      bit_and_lt w (a / 2) (b / 2) (omega (arith, pow-suc 2 w)),
    )

pub bit_or_lt : (w a b : ℕ) → a < 2 ^ w → b < 2 ^ w → bit_or a b < 2 ^ w
bit_or_lt zero a b h k =
    let e : a ≡ 0 = omega arith in let f : b ≡ 0 = omega arith in rw (e, f) (omega arith)
bit_or_lt (suc w) a b h k = omega (
  arith,
  bit_or_low a b,
  pow-suc 2 w,
  bit_or_lt w (a / 2) (b / 2) (omega (arith, pow-suc 2 w)) (omega (arith, pow-suc 2 w)),
)

pub bit_xor_lt : (w a b : ℕ) → a < 2 ^ w → b < 2 ^ w → bit_xor a b < 2 ^ w
bit_xor_lt zero a b h k =
    let e : a ≡ 0 = omega arith in let f : b ≡ 0 = omega arith in rw (e, f) (omega arith)
bit_xor_lt (suc w) a b h k = omega (
  arith,
  bit_xor_low a b,
  pow-suc 2 w,
  bit_xor_lt w (a / 2) (b / 2) (omega (arith, pow-suc 2 w)) (omega (arith, pow-suc 2 w)),
)

halved : (k : ℕ) → 2 ^ suc k / 2 ≡ 2 ^ k
halved k = omega (arith, pow-suc 2 k)

even_pow : (k : ℕ) → 2 ^ suc k % 2 ≡ 0
even_pow k = omega (arith, pow-suc 2 k)

-- A flag set by `1 << k` is tested by `n & (1 << k)`.
pub bit_and-pow : (n k : ℕ) → bit_and n (2 ^ k) ≡ bit n k * 2 ^ k
unfolding bit
bit_and-pow n zero = omega (arith, bit_and_low n 1, bit_and-zero (n / 2))
bit_and-pow n (suc k) = omega (
  arith,
  bit_and_low n (2 ^ suc k),
  halved k,
  ap (bit_and (n / 2)) (halved k),
  even_pow k,
  bit_and-pow (n / 2) k,
  ap (λ (t : ℕ). bit (n / 2) k * t) (pow-suc 2 k),
)

-- The mask `~0 << s` of a word of `w` bits.
pub bit-mask_low : (w s i : ℕ) → i < s → i < w → bit ((2 ^ w - 1) * 2 ^ s % 2 ^ w) i ≡ 0
bit-mask_low w s i lt lw =
    bit-mod_pow ((2 ^ w - 1) * 2 ^ s) w i lw ∙ bit-shift_low (2 ^ w - 1) s i lt

bit-ones : (w i : ℕ) → i < w → bit (2 ^ w - 1) i ≡ 1
bit-ones w i lt =
    let e : 2 ^ w - 1 - 0 ≡ 2 ^ w - 1 = omega arith in
    rw (← e) (omega (arith, bit-complement w 0 i (pow_pos w) lt, zero-bit i))

pub bit-mask_high : (w s i : ℕ) → s ≤ i → i < w → bit ((2 ^ w - 1) * 2 ^ s % 2 ^ w) i ≡ 1
bit-mask_high w s i le lw =
    let e : i ≡ s + (i - s) = omega arith in
    bit-mod_pow ((2 ^ w - 1) * 2 ^ s) w i lw
    ∙ ap (bit ((2 ^ w - 1) * 2 ^ s)) e
    ∙ bit-shift_high (2 ^ w - 1) s (i - s)
    ∙ bit-ones w (i - s) (omega arith)
