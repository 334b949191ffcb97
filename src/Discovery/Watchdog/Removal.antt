-- ===== src/Discovery/Watchdog/Removal.antt =====
-- The removal of a bulb from the table, when no two bulbs have the same address.
use mathlib.Core.Path.{subst}
use lightsd.Common.{
  ℕ, ◌≡◌, refl, sym, ap, ◌∙◌, inl, inr, List, [], ◌∷◌, Any, true, false, Bool-cases,
}
use lightsd.Common.Bytes.{same_bytes, same_bytes_refl, same_bytes-eq}
use lightsd.Router.Network.{RoutedBulb}
use lightsd.Router.Devices.Known.{InTable}
use lightsd.Router.Devices.Insert.{Distinct}
use lightsd.Discovery.Watchdog.{remove_bulb}

abbrev pub Is : RoutedBulb → List RoutedBulb → Type 0
Is b bulbs = Any (λ (x : RoutedBulb). x ≡ b) bulbs

pub Is-InTable : (b : RoutedBulb) (bulbs : List RoutedBulb) → Is b bulbs → InTable b.bulb.addr bulbs
Is-InTable b [] h = absurd h
Is-InTable b (x ∷ bulbs) (inl e) = inl (ap (λ (y : RoutedBulb). y.bulb.addr) e)
Is-InTable b (x ∷ bulbs) (inr h) = inr (Is-InTable b bulbs h)

-- What a removal leaves was there before.
pub remove_bulb-Is :
    (bulbs : List RoutedBulb) (addr : List ℕ) (b : RoutedBulb)
    → Is b (remove_bulb bulbs addr)
    → Is b bulbs
unfolding remove_bulb
remove_bulb-Is [] addr b h = absurd h
remove_bulb-Is (x ∷ bulbs) addr b h = elim (Bool-cases (same_bytes x.bulb.addr addr)) [
  | inl e ↦
      let f : remove_bulb (x ∷ bulbs) addr ≡ bulbs = rw (e, remove_bulb) refl in
      inr (subst (Is b) f h)
  | inr e ↦
      let f : remove_bulb (x ∷ bulbs) addr ≡ x ∷ remove_bulb bulbs addr =
        rw (e, remove_bulb) refl in
      elim (subst (Is b) f h) [ inl k ↦ inl k | inr k ↦ inr (remove_bulb-Is bulbs addr b k) ]
]

pub remove_bulb-InTable :
    (bulbs : List RoutedBulb) (addr a : List ℕ)
    → InTable a (remove_bulb bulbs addr)
    → InTable a bulbs
unfolding remove_bulb
remove_bulb-InTable [] addr a h = absurd h
remove_bulb-InTable (x ∷ bulbs) addr a h = elim (Bool-cases (same_bytes x.bulb.addr addr)) [
  | inl e ↦
      let f : remove_bulb (x ∷ bulbs) addr ≡ bulbs = rw (e, remove_bulb) refl in
      inr (subst (InTable a) f h)
  | inr e ↦
      let f : remove_bulb (x ∷ bulbs) addr ≡ x ∷ remove_bulb bulbs addr =
        rw (e, remove_bulb) refl in
      elim (subst (InTable a) f h) [
        | inl k ↦ inl k
        | inr k ↦ inr (remove_bulb-InTable bulbs addr a k)
      ]
]

pub remove_bulb-Distinct :
    (bulbs : List RoutedBulb) (addr : List ℕ) → Distinct bulbs → Distinct (remove_bulb bulbs addr)
unfolding remove_bulb
remove_bulb-Distinct [] addr d = tt
remove_bulb-Distinct (x ∷ bulbs) addr (fresh, d) = elim (Bool-cases (same_bytes x.bulb.addr addr)) [
  | inl e ↦ rw (e, remove_bulb) d
  | inr e ↦
      rw (e, remove_bulb)
        (
          (λ h. fresh (remove_bulb-InTable bulbs addr x.bulb.addr h)),
          remove_bulb-Distinct bulbs addr d,
        )
]

-- The address is gone.
pub remove_bulb-gone :
    (bulbs : List RoutedBulb) (addr : List ℕ)
    → Distinct bulbs
    → ¬ InTable addr (remove_bulb bulbs addr)
unfolding remove_bulb
remove_bulb-gone [] addr d h = h
remove_bulb-gone (x ∷ bulbs) addr (fresh, d) h = elim (Bool-cases (same_bytes x.bulb.addr addr)) [
  | inl e ↦
      let f : remove_bulb (x ∷ bulbs) addr ≡ bulbs = rw (e, remove_bulb) refl in
      fresh (
        subst (λ (a : List ℕ). InTable a bulbs) (sym (same_bytes-eq x.bulb.addr addr e))
          (subst (InTable addr) f h))
  | inr e ↦
      let f : remove_bulb (x ∷ bulbs) addr ≡ x ∷ remove_bulb bulbs addr =
        rw (e, remove_bulb) refl in
      elim (subst (InTable addr) f h) [
        | inl k ↦
            let g : true ≡ false =
              sym (same_bytes_refl addr) ∙ sym (ap (λ (a : List ℕ). same_bytes a addr) k) ∙ e in
            cc
        | inr k ↦ remove_bulb-gone bulbs addr d k
      ]
]

-- Two bulbs of the table with one address are one.
pub Distinct-Is :
    (bulbs : List RoutedBulb) (x b : RoutedBulb)
    → Distinct bulbs
    → Is x bulbs
    → Is b bulbs
    → x.bulb.addr ≡ b.bulb.addr
    → x ≡ b
Distinct-Is [] x b d h k e = absurd h
Distinct-Is (y ∷ bulbs) x b (fresh, d) (inl f) (inl g) e = sym f ∙ g
Distinct-Is (y ∷ bulbs) x b (fresh, d) (inl f) (inr k) e = absurd (
    fresh (
      subst (λ (a : List ℕ). InTable a bulbs) (sym e ∙ sym (ap (λ (z : RoutedBulb). z.bulb.addr) f))
        (Is-InTable b bulbs k)))
Distinct-Is (y ∷ bulbs) x b (fresh, d) (inr h) (inl g) e = absurd (
    fresh (
      subst (λ (a : List ℕ). InTable a bulbs) (e ∙ sym (ap (λ (z : RoutedBulb). z.bulb.addr) g))
        (Is-InTable x bulbs h)))
Distinct-Is (y ∷ bulbs) x b (fresh, d) (inr h) (inr k) e = Distinct-Is bulbs x b d h k e

pub remove_bulb-other :
    (bulbs : List RoutedBulb) (addr : List ℕ) (b : RoutedBulb)
    → ¬ (addr ≡ b.bulb.addr)
    → Is b bulbs
    → Is b (remove_bulb bulbs addr)
unfolding remove_bulb
remove_bulb-other [] addr b ne h = h
remove_bulb-other (x ∷ bulbs) addr b ne h = elim (Bool-cases (same_bytes x.bulb.addr addr)) [
  | inl e ↦ elim h [
    | inl f ↦
        absurd
          (ne (sym (same_bytes-eq x.bulb.addr addr e) ∙ ap (λ (z : RoutedBulb). z.bulb.addr) f))
    | inr k ↦ rw (e, remove_bulb) k
  ]
  | inr e ↦ elim h [
    | inl f ↦ rw (e, remove_bulb) (inl f)
    | inr k ↦ rw (e, remove_bulb) (inr (remove_bulb-other bulbs addr b ne k))
  ]
]
