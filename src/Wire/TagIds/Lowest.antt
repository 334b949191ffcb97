-- ===== src/Wire/TagIds/Lowest.antt =====
-- The De Bruijn scan against the lowest bit of a word.
use native.Mathlib.Nat.{pow-suc}
use lightsd.Common.{
  ℕ, zero, suc, ◌+◌, ◌-◌, ◌*◌, ◌/◌, ◌%◌, ◌^◌, ◌<◌, ◌≡◌, ◌⊎◌, inl, inr, refl, ap, Bool, true, ◌&&◌,
  some, bit_xor, ◌==◌, ==_iff, get_or, arith,
}
use lightsd.Common.Bits.{bit}
use lightsd.Common.Bits.Digits.{bit_xor_low}
use lightsd.Wire.TagIds.{u64_mod, debruijn_number, debruijn_sequence, bitscan64_forward}

-- `k` is the lowest bit that is set in `n`.
pub record IsLowest (n k : ℕ) : Type 0 where
  pub is_set : bit n k ≡ 1
  pub clear_below : (i : ℕ) → i < k → bit n i ≡ 0

parity : (n : ℕ) → (n % 2 ≡ 0) ⊎ (n % 2 ≡ 1)
parity n = omega arith

odd-IsLowest : (n : ℕ) → n % 2 ≡ 1 → IsLowest n 0
unfolding bit
odd-IsLowest n e = record { is_set = e; clear_below = λ i lt. elim lt [ ] }

even_clear : (n k : ℕ) → n % 2 ≡ 0 → IsLowest (n / 2) k → (i : ℕ) → i < suc k → bit n i ≡ 0
unfolding bit
even_clear n k e l zero lt = e
even_clear n k e l (suc i) lt = l.clear_below i (omega arith)

even-IsLowest : (n k : ℕ) → n % 2 ≡ 0 → IsLowest (n / 2) k → IsLowest n (suc k)
unfolding bit
even-IsLowest n k e l = record { is_set = l.is_set; clear_below = even_clear n k e l }

halve-IsLowest : (n k : ℕ) → IsLowest n (suc k) → IsLowest (n / 2) k
unfolding bit
halve-IsLowest n k l = record {
  is_set = l.is_set;
  clear_below = λ i lt. l.clear_below (suc i) (omega arith);
}

pub IsLowest-exists : (w n : ℕ) → 0 < n → n < 2 ^ w → (k : ℕ) × (k < w) × IsLowest n k
IsLowest-exists zero n p h = absurd (omega arith)
IsLowest-exists (suc w) n p h = elim (parity n) [
  | inl even ↦
      let (k, lt, l) = IsLowest-exists w (n / 2) (omega arith) (omega (arith, pow-suc 2 w)) in
      (suc k, omega arith, even-IsLowest n k even l)
  | inr odd ↦ (0, omega arith, odd-IsLowest n odd)
]

bit_xor_self : (w n : ℕ) → n < 2 ^ w → bit_xor n n ≡ 0
bit_xor_self zero n h = let e : n ≡ 0 = omega arith in rw e refl
bit_xor_self (suc w) n h =
    omega (arith, bit_xor_low n n, bit_xor_self w (n / 2) (omega (arith, pow-suc 2 w)))

-- `n ^ (n - 1)` is the mask of the bits up to the lowest one.
lowest_mask : (w n k : ℕ) → 0 < n → n < 2 ^ w → IsLowest n k → bit_xor n (n - 1) + 1 ≡ 2 ^ suc k
unfolding bit
lowest_mask zero n k p h l = absurd (omega arith)
lowest_mask (suc w) n zero p h l =
    let odd : n % 2 ≡ 1 = l.is_set in
    let e : (n - 1) / 2 ≡ n / 2 = omega arith in
    omega (
      arith,
      bit_xor_low n (n - 1),
      ap (bit_xor (n / 2)) e,
      bit_xor_self w (n / 2) (omega (arith, pow-suc 2 w)),
    )
lowest_mask (suc w) n (suc k) p h l =
    let even : n % 2 ≡ 0 = l.clear_below 0 (omega arith) in
    let e : (n - 1) / 2 ≡ n / 2 - 1 = omega arith in
    omega (
      arith,
      bit_xor_low n (n - 1),
      ap (bit_xor (n / 2)) e,
      pow-suc 2 (suc k),
      lowest_mask w (n / 2) k (omega arith) (omega (arith, pow-suc 2 w)) (halve-IsLowest n k l),
    )

all_below : ℕ → (ℕ → Bool) → Bool
all_below zero p = true
all_below (suc n) p = p n && all_below n p

all_below_at : (n : ℕ) (p : ℕ → Bool) (x : ℕ) → all_below n p ≡ true → x < n → p x ≡ true
unfolding all_below
all_below_at zero p x h lt = elim lt [ ]
all_below_at (suc n) p x h lt = ground (arith, all_below_at n p x)

-- The table holds `k` where the mask of `k + 1` ones leads.
table_checked :
    all_below 64
      (λ k. get_or debruijn_sequence ((2 ^ suc k - 1) * debruijn_number % u64_mod / 2 ^ 58) 64 == k)
    ≡ true
unfolding all_below
table_checked = refl

bitscan64_forward_at :
    (n k : ℕ) → 0 < n → k < 64 → bit_xor n (n - 1) + 1 ≡ 2 ^ suc k → bitscan64_forward n ≡ some k
unfolding bitscan64_forward
bitscan64_forward_at n k p lt e =
    let m : bit_xor n (n - 1) ≡ 2 ^ suc k - 1 = omega arith in
    let t : get_or debruijn_sequence ((2 ^ suc k - 1) * debruijn_number % u64_mod / 2 ^ 58) 64 ≡ k =
      (==_iff _ k).0 (all_below_at 64 _ k table_checked lt) in
    rw m (rw t (ground arith))

-- bitscan64_forward gives -1 for 0, and for any other uint64_t the position of its lowest set bit.
pub bitscan64_forward-IsLowest :
    (n : ℕ)
    → 0 < n
    → n < u64_mod
    → (k : ℕ) × (bitscan64_forward n ≡ some k) × (k < 64) × IsLowest n k
bitscan64_forward-IsLowest n p h =
    let (k, lt, l) = IsLowest-exists 64 n p h in
    (k, bitscan64_forward_at n k p lt (lowest_mask 64 n k p h l), lt, l)
