-- ===== src/Discovery/Watchdog/Forgetting.antt =====
-- A bulb that is taken out of the table and out of the list of its gateway.
use mathlib.Core.Path.{subst}
use lightsd.Common.{
  ℕ, ◌≡◌, ◌≢◌, refl, sym, ap, ◌∙◌, inl, inr, List, [], ◌∷◌, true, false, none, some, Bool-cases,
  ◌==◌, arith,
}
use lightsd.Common.Bytes.{same_bytes, same_bytes_refl, same_bytes-eq}
use lightsd.Gateway.Bulbs.{Bulb}
use lightsd.Router.Network.{RoutedBulb, RoutedGateway, bulb_get, gateway_at}
use lightsd.Router.Devices.Known.{Listed, InTable}
use lightsd.Router.Devices.Insert.{NoDuplicates, Distinct}
use lightsd.Discovery.Watchdog.{remove_bulb, remove_addr, forget_bulb, forget_bulb_at}
use lightsd.Discovery.Watchdog.Removal.{remove_bulb-gone}
use lightsd.Handling.Links.{gw_of, bulbs_at}

pub remove_addr-Listed :
    (l : List (List ℕ)) (addr a : List ℕ) → Listed a (remove_addr l addr) → Listed a l
unfolding remove_addr
remove_addr-Listed [] addr a h = h
remove_addr-Listed (x ∷ l) addr a h = elim (Bool-cases (same_bytes x addr)) [
  | inl e ↦ inr (rw (e, remove_addr) at h)
  | inr e ↦ elim (rw (e, remove_addr) at h) as (λ y. Listed a (x ∷ l)) [
    | inl k ↦ inl k
    | inr k ↦ inr (remove_addr-Listed l addr a k)
  ]
]

pub remove_addr-other :
    (l : List (List ℕ)) (addr a : List ℕ)
    → same_bytes addr a ≡ false
    → Listed a l
    → Listed a (remove_addr l addr)
unfolding remove_addr
remove_addr-other [] addr a ne h = h
remove_addr-other (x ∷ l) addr a ne h = elim (Bool-cases (same_bytes x addr)) [
  | inl e ↦ elim h [
    | inl f ↦
        let g : same_bytes addr a ≡ true =
          ap (λ (y : List ℕ). same_bytes addr y) (sym f ∙ same_bytes-eq x addr e)
          ∙ same_bytes_refl addr in
        let k : true ≡ false = sym g ∙ ne in cc
    | inr k ↦ rw (e, remove_addr) k
  ]
  | inr e ↦ elim h [
    | inl f ↦ rw (e, remove_addr) (inl f)
    | inr k ↦ rw (e, remove_addr) (inr (remove_addr-other l addr a ne k))
  ]
]

pub remove_addr-NoDuplicates :
    (l : List (List ℕ)) (addr : List ℕ) → NoDuplicates l → NoDuplicates (remove_addr l addr)
unfolding remove_addr
remove_addr-NoDuplicates [] addr d = tt
remove_addr-NoDuplicates (x ∷ l) addr (fresh, d) = elim (Bool-cases (same_bytes x addr)) [
  | inl e ↦ rw (e, remove_addr) d
  | inr e ↦
      rw (e, remove_addr)
        ((λ h. fresh (remove_addr-Listed l addr x h)), remove_addr-NoDuplicates l addr d)
]

pub remove_addr-gone :
    (l : List (List ℕ)) (addr : List ℕ) → NoDuplicates l → ¬ Listed addr (remove_addr l addr)
unfolding remove_addr
remove_addr-gone [] addr d h = h
remove_addr-gone (x ∷ l) addr (fresh, d) h = elim (Bool-cases (same_bytes x addr)) [
  | inl e ↦
      fresh (
        subst (λ (y : List ℕ). Listed y l) (sym (same_bytes-eq x addr e))
          (rw (e, remove_addr) at h))
  | inr e ↦ elim (rw (e, remove_addr) at h) as (λ y. ⊥) [
    | inl k ↦
        let g : same_bytes x addr ≡ true =
          ap (λ (y : List ℕ). same_bytes y addr) k ∙ same_bytes_refl addr in
        let f : true ≡ false = sym g ∙ e in cc
    | inr k ↦ remove_addr-gone l addr d k
  ]
]

-- The gateway of another bulb stays, and that of the bulb is not found any more.
pub gw_of-remove_other :
    (bs : List RoutedBulb) (addr a : List ℕ)
    → same_bytes addr a ≡ false
    → gw_of (remove_bulb bs addr) a ≡ gw_of bs a
unfolding remove_bulb gw_of bulb_get
gw_of-remove_other [] addr a ne = refl
gw_of-remove_other (x ∷ bs) addr a ne = elim (Bool-cases (same_bytes x.bulb.addr addr)) [
  | inl e ↦
      let f : same_bytes x.bulb.addr a ≡ false =
        ap (λ (y : List ℕ). same_bytes y a) (same_bytes-eq x.bulb.addr addr e) ∙ ne in
      rw (e, f, remove_bulb, gw_of, bulb_get) refl
  | inr e ↦ elim (Bool-cases (same_bytes x.bulb.addr a)) [
    | inl f ↦ rw (e, f, remove_bulb, gw_of, bulb_get) refl
    | inr f ↦ rw (e, f, remove_bulb, gw_of, bulb_get) (gw_of-remove_other bs addr a ne)
  ]
]

gw_of-found : (bs : List RoutedBulb) (a : List ℕ) (n : ℕ) → gw_of bs a ≡ some n → InTable a bs
unfolding gw_of bulb_get
gw_of-found [] a n h = let f : none ≡ some n = h in cc
gw_of-found (x ∷ bs) a n h = elim (Bool-cases (same_bytes x.bulb.addr a)) [
  | inl e ↦ inl (same_bytes-eq x.bulb.addr a e)
  | inr e ↦ inr (gw_of-found bs a n (rw (e, gw_of, bulb_get) at h))
]

pub gw_of-removed :
    (bs : List RoutedBulb) (addr : List ℕ) (n : ℕ)
    → Distinct bs
    → ¬ (gw_of (remove_bulb bs addr) addr ≡ some n)
gw_of-removed bs addr n d h =
    remove_bulb-gone bs addr d (gw_of-found (remove_bulb bs addr) addr n h)

forget_bulb-bulbs :
    (bulb : Bulb) (g : RoutedGateway)
    → (forget_bulb bulb g.gw).bulbs ≡ remove_addr g.gw.bulbs bulb.addr
forget_bulb-bulbs bulb g = refl

pub bulbs_at-forget_self :
    (gs : List RoutedGateway) (n : ℕ) (bulb : Bulb) (l : List (List ℕ))
    → bulbs_at gs n ≡ some l
    → bulbs_at (forget_bulb_at gs n bulb) n ≡ some (remove_addr l bulb.addr)
unfolding bulbs_at gateway_at forget_bulb_at
bulbs_at-forget_self [] n bulb l h = let f : none ≡ some l = h in cc
bulbs_at-forget_self (x ∷ gs) n bulb l h = elim (Bool-cases (x.number == n)) [
  | inl e ↦
      let f : some x.gw.bulbs ≡ some l = rw (e, bulbs_at, gateway_at) at h in
      let k : x.gw.bulbs ≡ l = cc in
      rw (e, forget_bulb_at, bulbs_at, gateway_at, e)
        (ap (λ (y : List (List ℕ)). some (remove_addr y bulb.addr)) k)
  | inr e ↦
      rw (e, forget_bulb_at, bulbs_at, gateway_at, e)
        (bulbs_at-forget_self gs n bulb l (rw (e, bulbs_at, gateway_at) at h))
]

pub bulbs_at-forget_other :
    (gs : List RoutedGateway) (n m : ℕ) (bulb : Bulb)
    → n ≢ m
    → bulbs_at (forget_bulb_at gs n bulb) m ≡ bulbs_at gs m
unfolding bulbs_at gateway_at forget_bulb_at
bulbs_at-forget_other [] n m bulb ne = refl
bulbs_at-forget_other (x ∷ gs) n m bulb ne = elim (Bool-cases (x.number == n)) [
  | inl e ↦
      let f : (x.number == m) ≡ false = ground arith in
      rw (e, forget_bulb_at, bulbs_at, gateway_at, f) refl
  | inr e ↦ elim (Bool-cases (x.number == m)) [
    | inl f ↦ rw (e, f, forget_bulb_at, bulbs_at, gateway_at) refl
    | inr f ↦ rw (e, f, forget_bulb_at, bulbs_at, gateway_at) (bulbs_at-forget_other gs n m bulb ne)
  ]
]
