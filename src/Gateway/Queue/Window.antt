-- ===== src/Gateway/Queue/Window.antt =====
-- The messages of the ring, from an index on and round its end.
use lightsd.Common.{
  ℕ, zero, suc, ◌+◌, ◌%◌, ◌<◌, ◌≡◌, ◌≢◌, refl, ap, ap₂, ◌∙◌, List, [], ◌∷◌, ◌++◌, length, get_or,
  set, get_or-set_self, get_or-set_ne, arith,
}
use lightsd.Gateway.State.{Message, no_message}

abbrev pub window : List Message → ℕ → ℕ → List Message
window ring i zero = []
window ring i (suc n) = get_or ring i no_message ∷ window ring ((i + 1) % 16) n

pub window_cong :
    {r s : List Message} {i j n m : ℕ} → r ≡ s → i ≡ j → n ≡ m → window r i n ≡ window s j m
window_cong p q e = λ k. window (p k) (q k) (e k)

pub length-window : (ring : List Message) (i n : ℕ) → length (window ring i n) ≡ n
length-window ring i zero = refl
length-window ring i (suc n) = ap suc (length-window ring ((i + 1) % 16) n)

-- A write that the window does not reach leaves it alone.
pub window-set_outside :
    (ring : List Message) (m : Message) (j i n : ℕ)
    → i < 16
    → ((k : ℕ) → k < n → (i + k) % 16 ≢ j)
    → window (set ring j m) i n ≡ window ring i n
window-set_outside ring m j i zero hi h = refl
window-set_outside ring m j i (suc n) hi h =
    ap₂ ◌∷◌ (get_or-set_ne ring j i m no_message (λ e. h 0 (omega arith) (omega arith))) (
      window-set_outside ring m j ((i + 1) % 16) n (omega arith)
        (λ k lt e. h (suc k) (omega arith) (omega arith)))

-- One more message at the far end.
pub window_last :
    (ring : List Message) (i n : ℕ)
    → i < 16
    → window ring i (suc n) ≡ window ring i n ++ (get_or ring ((i + n) % 16) no_message ∷ [])
window_last ring i zero hi =
    let e : i ≡ (i + 0) % 16 = omega arith in ap (λ (k : ℕ). get_or ring k no_message ∷ []) e
window_last ring i (suc n) hi =
    let e : ((i + 1) % 16 + n) % 16 ≡ (i + suc n) % 16 = omega arith in
    ap (◌∷◌ (get_or ring i no_message)) (
      window_last ring ((i + 1) % 16) n (omega arith)
      ∙ ap (λ (k : ℕ). window ring ((i + 1) % 16) n ++ (get_or ring k no_message ∷ [])) e)

pub window-set_last :
    (ring : List Message) (m : Message) (i n : ℕ)
    → length ring ≡ 16
    → i < 16
    → n < 16
    → window (set ring ((i + n) % 16) m) i (suc n) ≡ window ring i n ++ (m ∷ [])
window-set_last ring m i n len hi hn =
    window_last (set ring ((i + n) % 16) m) i n hi
    ∙ ap₂ (λ (xs : List Message) (x : Message). xs ++ (x ∷ []))
        (window-set_outside ring m ((i + n) % 16) i n hi (λ k lt. omega arith))
        (get_or-set_self ring ((i + n) % 16) m no_message (omega arith))
