-- ===== src/Wire/Endian/Laws.antt =====
-- The byte order functions, one way and back, and in memory.
use mathlib.Core.List.{reverse, reverse-reverse, reverse-cons}
use native.Mathlib.Nat.{pow-suc}
use lightsd.Common.{
  ℕ, zero, suc, ◌+◌, ◌*◌, ◌/◌, ◌%◌, ◌^◌, ◌<◌, ◌≡◌, refl, ap, sym, ◌∙◌, List, [], ◌∷◌, ◌++◌, length,
  All, length-append, arith,
}
use lightsd.Wire.Endian.{Host, le_bytes, of_le_bytes, swap_bytes, htole, letoh, memory}

abbrev pub AreBytes : List ℕ → Type 0
AreBytes bs = All (λ (b : ℕ). b < 256) bs

pub length-le_bytes : (k n : ℕ) → length (le_bytes k n) ≡ k
length-le_bytes zero n = refl
length-le_bytes (suc k) n = ap suc (length-le_bytes k (n / 256))

pub le_bytes-AreBytes : (k n : ℕ) → AreBytes (le_bytes k n)
le_bytes-AreBytes zero n = tt
le_bytes-AreBytes (suc k) n = (omega arith, le_bytes-AreBytes k (n / 256))

pub of_le_bytes-le_bytes : (k n : ℕ) → n < 256 ^ k → of_le_bytes (le_bytes k n) ≡ n
of_le_bytes-le_bytes zero n h = omega arith
of_le_bytes-le_bytes (suc k) n h =
    omega (arith, pow-suc 256 k, of_le_bytes-le_bytes k (n / 256) (omega (arith, pow-suc 256 k)))

pub le_bytes-of_le_bytes : (bs : List ℕ) → AreBytes bs → le_bytes (length bs) (of_le_bytes bs) ≡ bs
le_bytes-of_le_bytes [] h = refl
le_bytes-of_le_bytes (b ∷ bs) h =
    let e : (b + 256 * of_le_bytes bs) % 256 ≡ b = omega (arith, h.0) in
    let f : (b + 256 * of_le_bytes bs) / 256 ≡ of_le_bytes bs = omega (arith, h.0) in
    rw (e, f) (ap (◌∷◌ b) (le_bytes-of_le_bytes bs h.1))

pub AreBytes-append : (xs ys : List ℕ) → AreBytes xs → AreBytes ys → AreBytes (xs ++ ys)
AreBytes-append [] ys p q = q
AreBytes-append (x ∷ xs) ys p q = (p.0, AreBytes-append xs ys p.1 q)

pub AreBytes-reverse : (xs : List ℕ) → AreBytes xs → AreBytes (reverse xs)
AreBytes-reverse [] h = tt
AreBytes-reverse (x ∷ xs) h =
    rw (reverse-cons x xs)
      (AreBytes-append (reverse xs) (x ∷ []) (AreBytes-reverse xs h.1) (h.0, tt))

pub length-reverse : (xs : List ℕ) → length (reverse xs) ≡ length xs
length-reverse [] = refl
length-reverse (x ∷ xs) =
    omega
      (arith, ap length (reverse-cons x xs), length-append (reverse xs) (x ∷ []), length-reverse xs)

le_bytes-swap_bytes : (k n : ℕ) → le_bytes k (swap_bytes k n) ≡ reverse (le_bytes k n)
unfolding swap_bytes
le_bytes-swap_bytes k n =
    let e : length (reverse (le_bytes k n)) ≡ k =
      length-reverse (le_bytes k n) ∙ length-le_bytes k n in
    ap (λ (j : ℕ). le_bytes j (of_le_bytes (reverse (le_bytes k n)))) (sym e)
    ∙ le_bytes-of_le_bytes (reverse (le_bytes k n))
        (AreBytes-reverse (le_bytes k n) (le_bytes-AreBytes k n))

pub swap_bytes-swap_bytes : (k n : ℕ) → n < 256 ^ k → swap_bytes k (swap_bytes k n) ≡ n
unfolding swap_bytes
swap_bytes-swap_bytes k n h =
    ap (λ (bs : List ℕ). of_le_bytes (reverse bs)) (le_bytes-swap_bytes k n)
    ∙ ap of_le_bytes (reverse-reverse (le_bytes k n))
    ∙ of_le_bytes-le_bytes k n h

-- le16toh, le32toh and le64toh undo htole16, htole32 and htole64 on either host.
pub letoh-htole : (host : Host) (k n : ℕ) → n < 256 ^ k → letoh host k (htole host k n) ≡ n
unfolding letoh htole
letoh-htole Host.little k n h = refl
letoh-htole Host.big k n h = swap_bytes-swap_bytes k n h

-- What htole makes is kept in memory the lowest byte first, on either host.
pub memory-htole : (host : Host) (k n : ℕ) → memory host k (htole host k n) ≡ le_bytes k n
unfolding memory htole
memory-htole Host.little k n = refl
memory-htole Host.big k n = ap reverse (le_bytes-swap_bytes k n) ∙ reverse-reverse (le_bytes k n)
