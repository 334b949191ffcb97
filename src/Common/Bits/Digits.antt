-- ===== src/Common/Bits/Digits.antt =====
-- One step of each native bit operation: the lowest digit, and the operation on the halves.
use Prim.Native.Nat.{
  ℕ, zero, suc, ◌+◌, ◌*◌, ◌/◌, ◌%◌, ◌≤◌, ◌<◌, min, max, bit_and, bit_or, bit_xor, digits, differ,
  bit_and-bitwise, bit_or-bitwise, bit_xor-bitwise,
}
use mathlib.Core.Path.{◌≡◌, refl}
use native.Mathlib.Omega.{arith}

-- The count of digits to go makes no difference, once it covers the first number.
module _ (rest : ℕ → ℕ) (op : ℕ → ℕ → ℕ) where
  abbrev run : ℕ → ℕ → ℕ → ℕ
  run = digits rest op

  run_count : (a b k l : ℕ) → a ≤ k → a ≤ l → run k a b ≡ run l a b
  run_count zero b zero zero hk hl = refl
  run_count zero b zero (suc l) hk hl = refl
  run_count zero b (suc k) zero hk hl = refl
  run_count zero b (suc k) (suc l) hk hl = refl
  run_count (suc a) b zero l hk hl = elim hk [ ]
  run_count (suc a) b (suc k) zero hk hl = elim hl [ ]
  run_count (suc a) b (suc k) (suc l) hk hl =
      rw (run_count (suc a / 2) (b / 2) k l (omega arith) (omega arith))

  run_low :
      (a b : ℕ)
      → run (suc a) (suc a) b ≡ run (suc a / 2) (suc a / 2) (b / 2) * 2 + op (suc a % 2) (b % 2)
  run_low a b = rw (run_count (suc a / 2) (b / 2) a (suc a / 2) (omega arith) (omega arith))

pub bit_and_low : (a b : ℕ) → bit_and a b ≡ bit_and (a / 2) (b / 2) * 2 + min (a % 2) (b % 2)
bit_and_low zero b = simp bit_and-bitwise (omega arith)
bit_and_low (suc a) b = simp bit_and-bitwise (run_low (λ _. 0) min a b)

pub bit_or_low : (a b : ℕ) → bit_or a b ≡ bit_or (a / 2) (b / 2) * 2 + max (a % 2) (b % 2)
bit_or_low zero b = simp bit_or-bitwise (omega arith)
bit_or_low (suc a) b = simp bit_or-bitwise (run_low (λ n. n) max a b)

differ_digits : (x y : ℕ) → x < 2 → y < 2 → differ x y ≡ (x + y) % 2
differ_digits zero y hx hy = omega arith
differ_digits (suc zero) zero hx hy = refl
differ_digits (suc zero) (suc y) hx hy = omega arith
differ_digits (suc (suc x)) y hx hy = absurd (omega arith)

pub bit_xor_low : (a b : ℕ) → bit_xor a b ≡ bit_xor (a / 2) (b / 2) * 2 + (a % 2 + b % 2) % 2
bit_xor_low zero b = simp bit_xor-bitwise (omega arith)
bit_xor_low (suc a) b =
    rw (← differ_digits (suc a % 2) (b % 2) (omega arith) (omega arith))
      (simp bit_xor-bitwise (run_low (λ n. n) differ a b))

-- Zero on either side.
pub zero-bit_and : (b : ℕ) → bit_and 0 b ≡ 0
zero-bit_and b = bit_and-bitwise 0 b

zero_right : (k a : ℕ) → a ≤ k → bit_and a 0 ≡ 0
zero_right zero a h = let e : a ≡ 0 = omega arith in rw e (zero-bit_and 0)
zero_right (suc k) zero h = zero-bit_and 0
zero_right (suc k) (suc a) h =
    omega (arith, bit_and_low (suc a) 0, zero_right k (suc a / 2) (omega arith))

pub bit_and-zero : (a : ℕ) → bit_and a 0 ≡ 0
bit_and-zero a = zero_right a a (omega arith)
